-- ===== src/Methods/Gates.antt =====
-- How the method tables of the brain agree: what passes the scope table of
-- crates/hom-brain/src/ipc/server.rs, the policy of
-- crates/hom-brain/src/services/security_policy.rs and the router of
-- crates/hom-brain/src/ipc/router.rs, and what has a handler in
-- crates/hom-brain/src/workers/mod.rs.
use text.Mathlib.TextEquality.{eq_iff}
use hom_local.Prelude.{
  String, ◌≡◌, refl, inl, inr, Bool, true, false, ◌||◌, ◌&&◌, not, List, [], ◌∷◌, ◌++◌, Option,
  none, some, str_eq, arith, any_of, Bool-cases,
}
use hom_local.Methods.{
  match_arms, arm_names, required_scope, permitted_method, worker_for_method, has_worker_arm,
  is_direct, scope_arms, worker_names,
}

-- Checking a Boolean property of every text of a list.
abbrev all_of : (String → Bool) → List String → Bool
all_of p [] = true
all_of p (x ∷ xs) = p x && all_of p xs

any_of-append :
    (x : String) (xs ys : List String) → any_of x (xs ++ ys) ≡ (any_of x xs || any_of x ys)
any_of-append x [] ys = refl
any_of-append x (y ∷ xs) ys = ground (arith, any_of-append x xs ys)

-- What holds of every text of a list holds of each text that is found in it.
all_of_sound :
    (p : String → Bool) (x : String) (xs : List String)
    → all_of p xs ≡ true
    → any_of x xs ≡ true
    → p x ≡ true
all_of_sound p x [] h m = cc
all_of_sound p x (y ∷ xs) h m = elim (Bool-cases (str_eq x y)) [
  | inl e ↦ rw ((eq_iff x y).0 e) (ground arith)
  | inr e ↦ all_of_sound p x xs (ground arith) (ground arith)
]

module _ {ℓ} {A : Type ℓ} where
  match_arms-any_of :
      (m : String) (arms : List (List String × A)) {a : A}
      → match_arms m arms ≡ some a
      → any_of m (arm_names arms) ≡ true
  match_arms-any_of m [] h = cc
  match_arms-any_of m ((names, a) ∷ arms) h = elim (Bool-cases (any_of m names)) [
    | inl e ↦ rw any_of-append (rw e refl)
    | inr e ↦ rw any_of-append (rw e (match_arms-any_of m arms (rw e at h)))
  ]

abbrev same : Bool → Bool → Bool
same true b = b
same false b = not b

abbrev pub is_some {ℓ} : {A : Type ℓ} → Option A → Bool
is_some none = false
is_some (some a) = true

-- A method is answered at once, or queued for a worker that has an arm for it.
abbrev pub is_handled : String → Bool
is_handled m = is_direct m || (is_some (worker_for_method m) && has_worker_arm m)

-- The methods that have a scope and still never reach a handler: the policy does not know the
-- first, and the router has no worker for the second.
abbrev pub blocked_names : List String
blocked_names = "reasoning.tool_event.record" ∷ "security.audit_log" ∷ []

abbrev passes_as_listed : String → Bool
passes_as_listed m = same (permitted_method m && is_handled m) (not (any_of m blocked_names))

scoped_table : all_of passes_as_listed (arm_names scope_arms) ≡ true
unfolding is_direct worker_for_method has_worker_arm permitted_method
scoped_table = refl

same→eq : (a b : Bool) → same a b ≡ true → a ≡ b
same→eq true true h = refl
same→eq false false h = refl
same→eq _ _ h = cc

-- A method that has a required scope passes the policy's list of methods and reaches a handler,
-- except `reasoning.tool_event.record` and `security.audit_log`, which do not.
pub scoped_methods_pass :
    (m s : String)
    → required_scope m ≡ some s
    → (permitted_method m && is_handled m) ≡ not (any_of m blocked_names)
unfolding required_scope
scoped_methods_pass m s h = same→eq _ _ (
    all_of_sound passes_as_listed m (arm_names scope_arms) scoped_table
      (match_arms-any_of m scope_arms h))

-- The methods that have a handler and no required scope.
abbrev pub unscoped_names : List String
unscoped_names =
    "memory.embedding.upsert" ∷ "diagnostics.recall_drift" ∷ "route.certificate.issue"
    ∷ "route.certificate.open" ∷ "exposure.policy" ∷ "session.compactions"
    ∷ "session.compaction.open" ∷ "session.compaction_snapshot" ∷ "session.context_pressure"
    ∷ "providers.model_catalog" ∷ "benchmarks.list" ∷ "benchmarks.detail" ∷ "benchmarks.record"
    ∷ "benchmarks.vector_exact" ∷ "benchmarks.vector_pq_candidates"
    ∷ "benchmarks.vector_pq_exact_rerank" ∷ "benchmarks.vector_recall"
    ∷ "benchmarks.vector_thresholds" ∷ "benchmarks.vector_regression_profile"
    ∷ "benchmarks.vector_regression_compare" ∷ "benchmarks.vector_regression_response"
    ∷ "policy.vector_recall" ∷ "import.memory.sources" ∷ "import.memory.batch.create"
    ∷ "import.memory.batch.get" ∷ "import.memory.batch.list" ∷ "import.memory.batch.parse"
    ∷ "import.memory.batch.preview" ∷ "import.memory.batch.commit" ∷ "import.memory.batch.cancel"
    ∷ "import.memory.batch.report" ∷ []

abbrev scope_as_listed : String → Bool
scope_as_listed m = same (is_some (required_scope m)) (not (any_of m unscoped_names))

handler_table : all_of scope_as_listed worker_names ≡ true
unfolding required_scope
handler_table = refl

-- A method with a handler in the worker has a required scope exactly if it is not one of 31
-- methods, benchmarks.list and the import.memory family among them: those are refused as unknown
-- before the worker sees them.
pub handlers_without_scope :
    (m : String)
    → has_worker_arm m ≡ true
    → is_some (required_scope m) ≡ not (any_of m unscoped_names)
unfolding has_worker_arm
handlers_without_scope m h =
    same→eq _ _ (all_of_sound scope_as_listed m worker_names handler_table h)

-- ===== src/Permissions/Latest.antt =====
-- The newest row that passes a test (crates/hom-brain/src/services/permissions.rs, the queries with
-- `ORDER BY created_at_s DESC LIMIT 1`).
use mathlib.Core.Path.{subst}
use hom_local.Prelude.{
  Bool, true, false, List, [], ◌∷◌, ◌≡◌, ◌≢◌, refl, inl, inr, ◌⊎◌, Bool-cases, Option-cases, Option,
  none, some, All, All-imp, eq_iff, str_eq, or_left, or_right,
}
use hom_local.Prelude.Int.{ltb_ℤ}
use hom_local.Codes.{any_piece}
use hom_local.Permissions.{GrantRow}
use hom_local.Permissions.Grants.{latest, newer, has_id}
use hom_local.Permissions.Single.{Apart, Single}

newer-cases :
    (r e : GrantRow) (rest : Option GrantRow) → newer r rest ≡ some e → (r ≡ e) ⊎ (rest ≡ some e)
newer-cases r e none h = inl cc
newer-cases r e (some s) h = elim (Bool-cases (ltb_ℤ r.created_at_s s.created_at_s)) [
  | inl older ↦ inr (rw older at h)
  | inr recent ↦ let same = rw recent at h in inl cc
]

-- The row is the first one, or that of the others.
pub latest-cases :
    (test : GrantRow → Bool) (r e : GrantRow) (rows : List GrantRow)
    → latest test (r ∷ rows) ≡ some e
    → ((test r ≡ true) × (r ≡ e)) ⊎ (latest test rows ≡ some e)
unfolding latest
latest-cases test r e rows h = elim (Bool-cases (test r)) [
  | inr failed ↦ inr (rw failed at h)
  | inl passed ↦ elim (newer-cases r e (latest test rows) (rw passed at h)) [
    | inl same ↦ inl (passed, same)
    | inr other ↦ inr other
  ]
]

pub latest-passes :
    (test : GrantRow → Bool) (e : GrantRow) (rows : List GrantRow)
    → latest test rows ≡ some e
    → test e ≡ true
unfolding latest
latest-passes test e [] h = cc
latest-passes test e (r ∷ rows) h = elim (latest-cases test r e rows h) [
  | inl (passed, same) ↦ rw same at passed
  | inr other ↦ latest-passes test e rows other
]

latest-All :
    (P : GrantRow → Type 0) (test : GrantRow → Bool) (e : GrantRow) (rows : List GrantRow)
    → latest test rows ≡ some e
    → All P rows
    → P e
unfolding latest
latest-All P test e [] h held = cc
latest-All P test e (r ∷ rows) h held = elim (latest-cases test r e rows h) [
  | inl (passed, same) ↦ subst P same held.0
  | inr other ↦ latest-All P test e rows other held.1
]

pub latest-has_id :
    (test : GrantRow → Bool) (e : GrantRow) (rows : List GrantRow)
    → latest test rows ≡ some e
    → has_id e.id rows ≡ true
unfolding latest
latest-has_id test e [] h = cc
latest-has_id test e (r ∷ rows) h = elim (latest-cases test r e rows h) [
  | inl (passed, same) ↦ or_left (has_id e.id rows) ((eq_iff r.id e.id).1 (rw same refl))
  | inr other ↦ or_right (str_eq r.id e.id) (latest-has_id test e rows other)
]

newer-some : (r : GrantRow) (rest : Option GrantRow) → newer r rest ≢ none
newer-some r none h = cc
newer-some r (some s) h = elim (Bool-cases (ltb_ℤ r.created_at_s s.created_at_s)) [
  | inl older ↦ cc (rw older at h)
  | inr recent ↦ cc (rw recent at h)
]

any-none :
    (test : GrantRow → Bool) (rows : List GrantRow)
    → All (λ r. test r ≡ false) rows
    → any_piece test rows ≡ false
any-none test [] held = refl
any-none test (r ∷ rows) held = rw (held.0, any-none test rows held.1) refl

pub latest-none :
    (test : GrantRow → Bool) (rows : List GrantRow)
    → latest test rows ≡ none
    → All (λ r. test r ≡ false) rows
unfolding latest
latest-none test [] h = tt
latest-none test (r ∷ rows) h = elim (Bool-cases (test r)) [
  | inr failed ↦ (failed, latest-none test rows (rw failed at h))
  | inl passed ↦ absurd (newer-some r (latest test rows) (rw passed at h))
]

pub latest-some :
    (test : GrantRow → Bool) (rows : List GrantRow)
    → any_piece test rows ≡ true
    → (r : GrantRow) × (latest test rows ≡ some r)
latest-some test rows h = elim (Option-cases (latest test rows)) [
  | inr found ↦ found
  | inl missing ↦ cc (any-none test rows (latest-none test rows missing))
]

-- With distinct ids, every row that has the id of the newest passing row passes too.
pub latest-same_id :
    (test : GrantRow → Bool) (e : GrantRow) (rows : List GrantRow)
    → latest test rows ≡ some e
    → Single rows
    → All (λ r. str_eq r.id e.id ≡ true → test r ≡ true) rows
unfolding latest
latest-same_id test e [] h single = tt
latest-same_id test e (r ∷ rows) h single = elim (latest-cases test r e rows h) [
  | inl (passed, same) ↦ (
    (λ eq. passed),
    All-imp (Apart r) _ rows
        (λ s apart eq.
          cc (rw (same, (eq_iff s.id e.id).0 eq) at apart.0, (eq_iff e.id e.id).1 refl))
        single.0,
  )
  | inr other ↦ (
    (λ eq. cc (eq, (latest-All (Apart r) test e rows other single.0).0)),
    latest-same_id test e rows other single.1,
  )
]

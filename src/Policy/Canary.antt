-- ===== src/Policy/Canary.antt =====
-- The canaries of crates/hom-brain/src/services/security_policy.rs: `detect_canaries` finds a token
-- that stands between separators, and the policy denies the request.
use hom_local.Prelude.{
  ℕ, String, Bool, true, false, not, ◌&&◌, ◌||◌, List, [], ◌∷◌, ◌++◌, ◌≡◌, refl, inl, inr,
  Bool-cases, str_eq, codes, ◌==◌, length, arith, or_right, ==→eq, if◌then◌else◌,
}
use hom_local.Codes.{begin_piece}
use hom_local.Policy.{
  PolicyOps, deny, evaluate_request, request_text, canaries_in, is_empty_list, is_separator,
  all_hexdigits, split, strip_prefix, is_canary, same_token, contains_token, collect,
  detect_canaries,
}

abbrev none_separates : List ℕ → Bool
none_separates [] = true
none_separates (c ∷ s) = not (is_separator c) && none_separates s

all_hexdigits-none_separates : (s : List ℕ) → all_hexdigits s ≡ true → none_separates s ≡ true
unfolding all_hexdigits
all_hexdigits-none_separates [] h = refl
all_hexdigits-none_separates (c ∷ s) h = ground (arith, all_hexdigits-none_separates s)

same_token_refl : (s : List ℕ) → same_token s s ≡ true
same_token_refl [] = refl
same_token_refl (c ∷ s) = ground (arith, same_token_refl s)

split-append :
    (t : List ℕ) (c : ℕ) (after : List ℕ)
    → none_separates t ≡ true
    → is_separator c ≡ true
    → split (t ++ (c ∷ after)) ≡ t ∷ split after
unfolding split
split-append [] c after h k = rw k refl
split-append (d ∷ t) c after h k =
    let inside : is_separator d ≡ false = ground arith in
    let more : none_separates t ≡ true = ground arith in
    rw (inside, split-append t c after more k) refl

abbrev later_pieces : List (List ℕ) → List (List ℕ)
later_pieces [] = []
later_pieces (p ∷ pieces) = pieces

later_pieces-contains :
    (l : List (List ℕ)) (t : List ℕ)
    → contains_token (later_pieces l) t ≡ true
    → contains_token l t ≡ true
later_pieces-contains [] t h = cc
later_pieces-contains (p ∷ l) t h = or_right (same_token p t) h

later_pieces-begin_piece :
    (c : ℕ) (l : List (List ℕ)) → later_pieces (begin_piece c l) ≡ later_pieces l
later_pieces-begin_piece c [] = refl
later_pieces-begin_piece c (p ∷ l) = refl

-- A delimited token is a piece, and not the first.
split-contains :
    (before t after : List ℕ) (c d : ℕ)
    → is_separator c ≡ true
    → is_separator d ≡ true
    → none_separates t ≡ true
    → contains_token (later_pieces (split (before ++ (c ∷ (t ++ (d ∷ after)))))) t ≡ true
unfolding split
split-contains [] t after c d hc hd ht =
    rw (hc, split-append t d after ht hd, same_token_refl t) refl
split-contains (b ∷ before) t after c d hc hd ht =
    let rest = split-contains before t after c d hc hd ht in
    elim (Bool-cases (is_separator b)) [
      | inl e ↦ rw e (later_pieces-contains _ t rest)
      | inr e ↦ rw (e, later_pieces-begin_piece b (split (before ++ (c ∷ (t ++ (d ∷ after)))))) rest
    ]

contains_token-append :
    (found more : List (List ℕ)) (t : List ℕ)
    → contains_token (found ++ more) t ≡ (contains_token found t || contains_token more t)
contains_token-append [] more t = refl
contains_token-append (s ∷ found) more t = ground (arith, contains_token-append found more t)

collect-keeps :
    (found pieces : List (List ℕ)) (t : List ℕ)
    → contains_token found t ≡ true
    → contains_token (collect found pieces) t ≡ true
unfolding collect
collect-keeps found [] t h = h
collect-keeps found (p ∷ pieces) t h =
    elim (Bool-cases (is_canary p && not (contains_token found p))) [
      | inl e ↦ rw e (
          collect-keeps (found ++ (p ∷ [])) pieces t
            (rw (contains_token-append found (p ∷ []) t, h) refl))
      | inr e ↦ rw e (collect-keeps found pieces t h)
    ]

same_token→eq : (s t : List ℕ) → same_token s t ≡ true → s ≡ t
same_token→eq [] [] h = refl
same_token→eq (a ∷ s) (b ∷ t) h = cc (==→eq a b (ground arith), same_token→eq s t (ground arith))
same_token→eq _ _ h = cc

collect-finds :
    (pieces found : List (List ℕ)) (t : List ℕ)
    → is_canary t ≡ true
    → contains_token pieces t ≡ true
    → contains_token (collect found pieces) t ≡ true
unfolding collect
collect-finds [] found t k h = cc
collect-finds (p ∷ pieces) found t k h = elim (Bool-cases (same_token p t)) [
  | inr e ↦
      collect-finds pieces
        (if is_canary p && not (contains_token found p) then found ++ (p ∷ []) else found) t k
        (rw e at h)
  | inl e ↦ elim (Bool-cases (contains_token found t)) [
    | inl f ↦ collect-keeps found (p ∷ pieces) t f
    | inr f ↦
        rw (same_token→eq p t e, k, f)
          (collect-keeps (found ++ (t ∷ [])) pieces t
            (rw (contains_token-append found (t ∷ []) t, f, same_token_refl t) refl))
  ]
]

abbrev pub token : List ℕ → List ℕ
token digits = codes "SECRET-" ++ digits

token-is_canary :
    (digits : List ℕ)
    → (length digits == 8) ≡ true
    → all_hexdigits digits ≡ true
    → is_canary (token digits) ≡ true
unfolding is_canary strip_prefix
token-is_canary digits n h = rw (n, h) refl

token-none_separates :
    (digits : List ℕ) → all_hexdigits digits ≡ true → none_separates (token digits) ≡ true
token-none_separates digits h = all_hexdigits-none_separates digits h

pub detect_canaries-finds :
    (before digits after : List ℕ) (c d : ℕ)
    → is_separator c ≡ true
    → is_separator d ≡ true
    → (length digits == 8) ≡ true
    → all_hexdigits digits ≡ true
    → contains_token
        (detect_canaries (before ++ (c ∷ (token digits ++ (d ∷ after)))))
        (token digits)
      ≡ true
unfolding detect_canaries
detect_canaries-finds before digits after c d hc hd n h =
    let text = before ++ (c ∷ (token digits ++ (d ∷ after))) in
    collect-finds (split text) [] (token digits) (token-is_canary digits n h) (
      later_pieces-contains (split text) (token digits)
        (split-contains before (token digits) after c d hc hd (token-none_separates digits h)))

contains-nonempty :
    (l : List (List ℕ)) (t : List ℕ) → contains_token l t ≡ true → is_empty_list l ≡ false
contains-nonempty [] t h = cc
contains-nonempty (s ∷ l) t h = refl

-- A request, other than security telemetry, whose text has a canary token between two separators
-- is denied for it, before any other rule is asked; and the token is among those reported.
pub canary_denied :
    (ops : PolicyOps) (method : String) (params : ops.Params) (before digits after : List ℕ)
    (c d : ℕ)
    → str_eq method "events.security" ≡ false
    → codes (request_text ops method params) ≡ before ++ (c ∷ (token digits ++ (d ∷ after)))
    → is_separator c ≡ true
    → is_separator d ≡ true
    → (length digits == 8) ≡ true
    → all_hexdigits digits ≡ true
    → ((evaluate_request ops method params).allowed ≡ false)
      × ((evaluate_request ops method params).rule_id ≡ "F_CANARY_KILL_CHAIN")
      × (contains_token (evaluate_request ops method params).canaries_found (token digits) ≡ true)
unfolding evaluate_request deny
canary_denied ops method params before digits after c d other text hc hd n h =
    let found : contains_token (canaries_in ops method params) (token digits) ≡ true =
      rw text (detect_canaries-finds before digits after c d hc hd n h) in
    let some_found = contains-nonempty (canaries_in ops method params) (token digits) found in
    (rw (other, some_found) refl, rw (other, some_found) refl, rw (other, some_found) found)

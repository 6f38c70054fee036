-- ===== src/Policy/Secrets.antt =====
-- The security policy with the program's scan for secrets in its place
-- (crates/hom-brain/src/services/security_policy.rs, `request_secret_matches`).
use hom_local.Prelude.{
  ℕ, String, Bool, true, false, List, [], ◌∷◌, ◌≡◌, refl, Option, none, some, str_eq, codes, arith,
  and_false, Bool-cases, inl, inr, if◌then◌else◌,
}
use hom_local.Json.{Value}
use hom_local.Json.Access.{get, as_str}
use hom_local.SecurityGate.{
  SecretMatch, secret_matches, memory_secret_matches, is_bibliographic_memory_type,
}
use hom_local.SecurityGate.Filters.{reports, filtered_reports}
use hom_local.Policy.{PolicyOps, evaluate_request, request_text}
use hom_local.Policy.Decide.{evaluate_request_allows}

abbrev has_any : List SecretMatch → Bool
has_any [] = false
has_any (m ∷ ms) = true

has_any-reports :
    (name : String) (ms : List SecretMatch) → reports name ms ≡ true → has_any ms ≡ true
has_any-reports name [] found = cc
has_any-reports name (m ∷ ms) found = refl

abbrev string_or : {N : Type 0} → String → Option (Value N) → String
string_or default none = default
string_or default (some v) = elim (as_str v) [ none ↦ default | some s ↦ s ]

module _ {N : Type 0} (lower : List ℕ → List ℕ) where
  -- `memory_type`, or `memoryType` where there is no such field; "declarative" where the one that
  -- is taken is no string
  unfoldable pub memory_type_of : Value N → String
  memory_type_of params = elim (get params "memory_type") [
    | some v ↦ string_or "declarative" (some v)
    | none ↦ string_or "declarative" (get params "memoryType")
  ]

  unfoldable pub request_secret_matches : String → Value N → String → List SecretMatch
  unfolding memory_type_of
  request_secret_matches method params raw_text =
      if str_eq method "memory.save"
      then memory_secret_matches lower (codes raw_text) (codes (memory_type_of params))
      else secret_matches lower (codes raw_text)

  reports-request :
      (name method : String) (params : Value N) (raw : String)
      → str_eq name "credit_card" ≡ false
      → reports name (secret_matches lower (codes raw)) ≡ true
      → reports name (request_secret_matches method params raw) ≡ true
  unfolding request_secret_matches
  reports-request name method params raw other found =
      elim (Bool-cases (str_eq method "memory.save")) [
        | inl save ↦
            rw
              (
                save,
                (filtered_reports lower name (codes raw) (codes (memory_type_of params))).0,
                found,
                other,
                and_false (is_bibliographic_memory_type (codes (memory_type_of params))),
              )
              refl
        | inr otherwise ↦ rw otherwise found
      ]

  module _ (json_text : Value N → String) (to_lowercase : String → String) where
    abbrev pub scanning_policy : PolicyOps
    scanning_policy = record {
      Params = Value N;
      json_text = json_text;
      to_lowercase = to_lowercase;
      has_secret_matches = λ method params raw. has_any (request_secret_matches method params raw);
    }

    -- A request other than security telemetry is denied when the scan of its text reports any pattern
    -- but a payment card, whatever the method and whatever memory type the parameters claim.
    pub secret_denied :
        (name method : String) (params : Value N)
        → str_eq method "events.security" ≡ false
        → str_eq name "credit_card" ≡ false
        → reports name (secret_matches lower (codes (request_text scanning_policy method params)))
          ≡ true
        → (evaluate_request scanning_policy method params).allowed ≡ false
    secret_denied name method params no_telemetry other found =
        rw
          (
            evaluate_request_allows scanning_policy method params,
            no_telemetry,
            has_any-reports name _ (
                reports-request name method params (request_text scanning_policy method params)
                  other found),
          )
          (ground arith)

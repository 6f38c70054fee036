-- ===== src/Tests/SecurityGate.antt =====
-- The scan for secrets (crates/hom-brain/src/services/security_gate.rs) on the texts of the
-- program's own tests and on texts that it does not report, with the lower case of ASCII.
use hom_local.Prelude.{
  ℕ, String, true, false, not, ◌&&◌, ◌||◌, List, [], ◌∷◌, ◌++◌, ◌≡◌, refl, codes, str_eq, arith,
}
use hom_local.Codes.{ascii_lower, split_at, any_piece, is_whitespace, trim_start, trim}
use hom_local.Json.{Value, object, field, string, end}
use hom_local.SecurityGate.{
  luhn_valid, luhn_sum, luhn_value, is_card, card_step, scan_card, contains_luhn_card,
  contains_assignment_secret, assigns_secret, assigned_value, secret_assignment_token,
  is_secret_assignment_token, secret_matches, has_private_key_block, has_bearer_token,
  contains_aws_access_key, is_aws_token, contains_prefixed_token, is_prefixed_token, contains_ssn,
  is_ssn_window, memory_secret_matches, generated_artifact_secret_matches,
  key_value_contains_secret_pattern, is_assignment_secret_key, is_key_named,
}
use hom_local.SecurityGate.Luhn.{luhn_detects_change}
use hom_local.SecurityGate.Card.{ends_run, is_card_run, contains_luhn_card-runs}
use hom_local.SecurityGate.Filters.{reports, is_exempt, filtered_reports}
use hom_local.Policy.{evaluate_request, request_text}
use hom_local.Policy.Secrets.{scanning_policy, secret_denied}

abbrev card_text : List ℕ
card_text = codes "test card 4111 1111 1111 1111 should be blocked"

finds_card : contains_luhn_card card_text ≡ true
unfolding contains_luhn_card scan_card card_step is_card luhn_valid luhn_sum luhn_value
finds_card = refl

-- An expiry date behind the card's number joins its run.
misses_card_with_expiry : contains_luhn_card (codes "card 4111 1111 1111 1111 12/27") ≡ false
unfolding contains_luhn_card scan_card card_step is_card luhn_valid luhn_sum luhn_value
misses_card_with_expiry = refl

finds_assignment : contains_assignment_secret (codes "token = abcdefghijklmnop1234") ≡ true
unfolding contains_assignment_secret assigns_secret assigned_value secret_assignment_token
    is_secret_assignment_token trim_start is_whitespace
finds_assignment = refl

-- Only the first place of a key is looked at.
misses_second_assignment :
    contains_assignment_secret (codes "the token is here: token = abcdefghijklmnop1234") ≡ false
unfolding contains_assignment_secret assigns_secret assigned_value secret_assignment_token
    is_secret_assignment_token trim_start is_whitespace
misses_second_assignment = refl

finds_ssn : contains_ssn (codes "operator ssn 123-45-6789") ≡ true
unfolding contains_ssn is_ssn_window
finds_ssn = refl

finds_key_value :
    key_value_contains_secret_pattern ascii_lower
      (codes "accessToken")
      (codes "abcdefghijklmnopqrstuvwxyz123456")
    ≡ true
unfolding key_value_contains_secret_pattern is_assignment_secret_key is_key_named
    secret_assignment_token is_secret_assignment_token trim is_whitespace
finds_key_value = refl

ignores_count :
    key_value_contains_secret_pattern ascii_lower (codes "token_count") (codes "42") ≡ false
unfolding key_value_contains_secret_pattern is_assignment_secret_key is_key_named
    secret_assignment_token is_secret_assignment_token trim is_whitespace
ignores_count = refl

abbrev ones : List ℕ
ones = 1 ∷ 1 ∷ 1 ∷ 1 ∷ 1 ∷ 1 ∷ 1 ∷ 1 ∷ 1 ∷ 1 ∷ 1 ∷ 1 ∷ 1 ∷ 1 ∷ []

card_digits_valid : luhn_valid ((4 ∷ []) ++ (1 ∷ ones)) ≡ true
unfolding luhn_valid luhn_sum luhn_value
card_digits_valid = refl

luhn_detects_change_example : luhn_valid ((4 ∷ []) ++ (2 ∷ ones)) ≡ false
luhn_detects_change_example =
    luhn_detects_change (4 ∷ []) ones 1 2 (omega arith) (omega arith) (omega arith)
      card_digits_valid

contains_luhn_card-runs_example :
    contains_luhn_card card_text ≡ any_piece is_card_run (split_at ends_run card_text)
contains_luhn_card-runs_example = contains_luhn_card-runs card_text

abbrev citation : List ℕ
citation = codes "doi: 4111 1111 1111 1111"

filtered_reports_example :
    (reports "credit_card"
        (memory_secret_matches ascii_lower citation (codes "bibliographic_reference"))
      ≡ (reports "credit_card" (secret_matches ascii_lower citation)
          && not (is_exempt ascii_lower "credit_card" citation (codes "bibliographic_reference"))))
    × (reports "credit_card" (generated_artifact_secret_matches ascii_lower citation) ≡ (
        reports "credit_card" (secret_matches ascii_lower citation)
        && not (str_eq "credit_card" "credit_card" || str_eq "credit_card" "ssn")))
filtered_reports_example =
    filtered_reports ascii_lower "credit_card" citation (codes "bibliographic_reference")

abbrev leak_text : Value ℕ → String
leak_text params = "ssn 123-45-6789"

abbrev leak : Value ℕ
leak = object (field "memoryType" (string "book_extract") end)

leak_is_found :
    reports "ssn" (
      secret_matches ascii_lower (
        codes
          (request_text (scanning_policy ascii_lower leak_text (λ text. text)) "memory.save" leak)))
    ≡ true
unfolding request_text secret_matches has_private_key_block has_bearer_token
    contains_assignment_secret assigns_secret assigned_value secret_assignment_token
    is_secret_assignment_token trim_start is_whitespace contains_aws_access_key is_aws_token
    split_at contains_prefixed_token is_prefixed_token contains_ssn is_ssn_window contains_luhn_card
    scan_card card_step is_card luhn_valid luhn_sum luhn_value
leak_is_found = refl

secret_denied_example :
    (evaluate_request
      (scanning_policy ascii_lower leak_text (λ text. text))
      "memory.save"
      leak).allowed
    ≡ false
secret_denied_example =
    secret_denied ascii_lower leak_text (λ text. text) "ssn" "memory.save" leak refl refl
      leak_is_found

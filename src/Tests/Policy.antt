-- ===== src/Tests/Policy.antt =====
-- The policy of crates/hom-brain/src/services/security_policy.rs on a request with a canary.
use hom_local.Prelude.{
  String, true, false, not, ◌&&◌, ◌||◌, ◌≡◌, refl, [], ◌∷◌, ◌++◌, str_eq, codes,
}
use hom_local.Methods.{permitted_method}
use hom_local.Policy.{
  PolicyOps, evaluate_request, request_text, contains_token, all_hexdigits, detect_canaries,
  collect, split, is_canary, strip_prefix,
}
use hom_local.Policy.Decide.{is_forbidden, evaluate_request_allows}
use hom_local.Policy.Canary.{token, canary_denied}

abbrev pub policy : PolicyOps
policy = record {
  Params = String;
  json_text = λ text. text;
  to_lowercase = λ text. text;
  has_secret_matches = λ method params text. false;
}

detects_canary_tokens :
    detect_canaries (codes "SECRET-ABCDEF12 inside payload") ≡ codes "SECRET-ABCDEF12" ∷ []
unfolding detect_canaries collect split is_canary strip_prefix all_hexdigits
detects_canary_tokens = refl

evaluate_request_allows_example : (evaluate_request policy "memory.recall" "{}").allowed ≡ (
    str_eq "memory.recall" "events.security"
    || (not (is_forbidden policy "memory.recall" "{}") && permitted_method "memory.recall"))
evaluate_request_allows_example = evaluate_request_allows policy "memory.recall" "{}"

abbrev leaking : String
leaking = "{\"query\":\"SECRET-ABCDEF12 please\"}"

leaking_text :
    codes (request_text policy "memory.recall" leaking)
    ≡ codes "memory.recall\n{\"query\":"
      ++ (b'"' ∷ (token (codes "ABCDEF12") ++ (b' ' ∷ codes "please\"}")))
unfolding request_text
leaking_text = refl

digits_are_hex : all_hexdigits (codes "ABCDEF12") ≡ true
unfolding all_hexdigits
digits_are_hex = refl

canary_denied_example :
    ((evaluate_request policy "memory.recall" leaking).allowed ≡ false)
    × ((evaluate_request policy "memory.recall" leaking).rule_id ≡ "F_CANARY_KILL_CHAIN")
    × (contains_token
          (evaluate_request policy "memory.recall" leaking).canaries_found
          (token (codes "ABCDEF12"))
        ≡ true)
canary_denied_example =
    canary_denied policy "memory.recall" leaking (codes "memory.recall\n{\"query\":")
      (codes "ABCDEF12") (codes "please\"}") b'"' b' ' refl leaking_text refl refl refl
      digits_are_hex

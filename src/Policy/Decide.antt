-- ===== src/Policy/Decide.antt =====
-- Which requests the policy of crates/hom-brain/src/services/security_policy.rs lets pass.
use hom_local.Prelude.{String, Bool, not, ◌&&◌, ◌||◌, ◌≡◌, [], ◌∷◌, str_eq, any_of, arith}
use hom_local.Methods.{permitted_method}
use hom_local.Policy.{
  PolicyOps, permit, deny, evaluate_request, request_text, canaries_in, lowered, is_empty_list,
  contains_persistent_instruction_attack, contains_exfiltration_request,
  contains_prompt_relay_attack,
}

module _ (ops : PolicyOps) where
  -- What forbids a request: a canary, a secret, or an attack of the kind that its method is open to.
  abbrev pub is_forbidden : String → ops.Params → Bool
  is_forbidden method params =
      not (is_empty_list (canaries_in ops method params))
      || ops.has_secret_matches method params (request_text ops method params)
      || (str_eq method "memory.save"
          && contains_persistent_instruction_attack (lowered ops method params))
      || (any_of method ("memory.recall" ∷ "memory.recall.smart" ∷ "memory.answer" ∷ [])
          && contains_exfiltration_request (lowered ops method params))
      || (str_eq method "memory.answer" && contains_prompt_relay_attack (lowered ops method params))

  -- The policy allows exactly the telemetry method, and the permitted methods whose request nothing
  -- forbids: what is forbidden stays forbidden for a permitted method, and an unknown method is
  -- denied whatever it carries.
  pub evaluate_request_allows :
      (method : String) (params : ops.Params)
      → (evaluate_request ops method params).allowed ≡ (
          str_eq method "events.security"
          || (not (is_forbidden method params) && permitted_method method))
  unfolding evaluate_request permit deny
  evaluate_request_allows method params = ground arith

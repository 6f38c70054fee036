-- ===== src/Ipc.antt =====
-- What the brain does with one line that a client sends (crates/hom-brain/src/ipc/server.rs,
-- `process_frame`): the table of scopes, the envelope, the policy, and only then the application.
-- The parser is serde_json's; the application's answer is what follows a dispatch.
pub mod Guarded
use hom_local.Prelude.{
  ℕ, String, Bool, true, false, not, List, [], ◌∷◌, Option, none, some, Result, ok, err,
  if◌then◌else◌,
}
use hom_local.Prelude.Int.{ℤ, negsuc}
use hom_local.Envelope.{
  HomEnvelope, VerifiedIdentity, EnvelopeError, error_code, PayloadOps, EnvelopeVerifier,
  verify_request,
}
use hom_local.Methods.{required_scope}
use hom_local.Policy.{PolicyOps, SecurityDecision, evaluate_request}

-- The envelope and the policy read the same parameters.
pub record IpcOps : Type 1 where
  pub payload : PayloadOps
  pub json_text : payload.Body → String
  pub to_lowercase : String → String
  pub has_secret_matches : String → payload.Body → String → Bool

abbrev pub policy_ops : IpcOps → PolicyOps
policy_ops ops = record {
  Params = ops.payload.Body;
  json_text = ops.json_text;
  to_lowercase = ops.to_lowercase;
  has_secret_matches = ops.has_secret_matches;
}

pub record JsonRpcRequest (Params : Type 0) : Type 0 where
  pub method : String
  pub params : Params
  pub hom : Option HomEnvelope

-- What becomes of a line: the error that is answered, with its code, a refusal by the policy, which
-- is recorded for the identity, or the dispatch.
pub data Outcome : Type 0 where
  parse_error : Outcome
  method_not_found : Outcome
  envelope_rejected : ℤ → Outcome
  policy_rejected : VerifiedIdentity → SecurityDecision → Outcome
  dispatched : VerifiedIdentity → Outcome

unfoldable pub outcome_code : Outcome → Option ℤ
outcome_code parse_error = some (negsuc 32699)
outcome_code method_not_found = some (negsuc 32600)
outcome_code (envelope_rejected code) = some code
outcome_code (policy_rejected id decision) = some (negsuc 32010)
outcome_code (dispatched id) = none

module _ (ops : IpcOps) where
  -- From the identity on
  unfoldable pub consult_policy : JsonRpcRequest ops.payload.Body → VerifiedIdentity → Outcome
  consult_policy request identity =
      let decision = evaluate_request (policy_ops ops) request.method request.params in
      if decision.allowed then dispatched identity else policy_rejected identity decision

  abbrev after_envelope :
      JsonRpcRequest ops.payload.Body → Result EnvelopeError VerifiedIdentity → Outcome
  after_envelope request (err e) = envelope_rejected (error_code e)
  after_envelope request (ok identity) = consult_policy request identity

  abbrev after_scope :
      ℤ
      → JsonRpcRequest ops.payload.Body
      → Option String
      → EnvelopeVerifier
      → EnvelopeVerifier × Outcome
  after_scope now request none v = (v, method_not_found)
  after_scope now request (some scope) v =
      let (v', verified) =
        verify_request ops.payload now request.params request.hom (some scope) v in
      (v', after_envelope request verified)

  unfoldable pub process_frame :
      ℤ → Option (JsonRpcRequest ops.payload.Body) → EnvelopeVerifier → EnvelopeVerifier × Outcome
  process_frame now none v = (v, parse_error)
  process_frame now (some request) v = after_scope now request (required_scope request.method) v

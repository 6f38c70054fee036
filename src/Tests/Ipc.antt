-- ===== src/Tests/Ipc.antt =====
-- One accepted line of crates/hom-brain/src/ipc/server.rs, over operations that stand for the hash,
-- the signature and the scan for secrets.
use hom_local.Prelude.{String, false, ◌≡◌, refl, some}
use hom_local.Prelude.Int.{pos, ◌-ℤ◌}
use hom_local.I64.{abs64, sub64}
use hom_local.Envelope.{
  verify_request, verify_body, verify_client, admit_nonce, check_payload, find_client, is_skewed,
  prune_nonces,
}
use hom_local.Methods.{required_scope, permitted_method}
use hom_local.Policy.{
  is_canary, evaluate_request, permit, request_text, detect_canaries, collect, split,
  contains_persistent_instruction_attack, contains,
}
use hom_local.Ipc.{IpcOps, JsonRpcRequest, dispatched, process_frame, consult_policy}
use hom_local.Ipc.Guarded.{Authorised, dispatched_is_Authorised}
use hom_local.Tests.Envelope.{ops, verifier, request, who}

abbrev ipc : IpcOps
ipc = record {
  payload = ops;
  json_text = λ text. text;
  to_lowercase = λ text. text;
  has_secret_matches = λ method params text. false;
}

abbrev line : JsonRpcRequest String
line = record { method = "memory.save"; params = "{}"; hom = some request }

line_is_dispatched : (process_frame ipc (pos 1010) (some line) verifier).1 ≡ dispatched who
unfolding process_frame required_scope verify_request verify_body verify_client admit_nonce
    check_payload find_client is_skewed prune_nonces abs64 sub64 ◌-ℤ◌ consult_policy
    evaluate_request permit permitted_method request_text detect_canaries collect split is_canary
    contains_persistent_instruction_attack contains
line_is_dispatched = refl

dispatched_is_Authorised_example : Authorised ipc (pos 1010) verifier line who
dispatched_is_Authorised_example =
    dispatched_is_Authorised ipc (pos 1010) verifier line who line_is_dispatched

-- ===== src/Ipc/Guarded.antt =====
-- What reaches the application (crates/hom-brain/src/ipc/server.rs, `process_frame`).
use mathlib.Core.List.{Memᴰ}
use hom_local.Prelude.{
  Result-cases, ◌≡◌, inl, inr, String, true, not, ◌&&◌, ◌||◌, some, str_eq, any_of, ok, Bool-cases,
  Option-cases, sym, ap, ◌∙◌,
}
use hom_local.Prelude.Int.{ℤ}
use hom_local.Envelope.{
  HomEnvelope, KnownClient, VerifiedIdentity, EnvelopeVerifier, verify_request, verify_body,
}
use hom_local.Envelope.Payload.{accepted_is_Vouched}
use hom_local.Methods.{required_scope, permitted_method}
use hom_local.Policy.{evaluate_request}
use hom_local.Policy.Decide.{is_forbidden, evaluate_request_allows}
use hom_local.Ipc.{IpcOps, policy_ops, JsonRpcRequest, dispatched, consult_policy, process_frame}

module _ (ops : IpcOps) (now : ℤ) (v : EnvelopeVerifier)
    (request : JsonRpcRequest ops.payload.Body) where
  -- A dispatched request is authorised.
  pub record Authorised (id : VerifiedIdentity) : Type 0 where
    pub scope : String
    pub demanded : required_scope request.method ≡ some scope
    pub hom : HomEnvelope
    pub enveloped : request.hom ≡ some hom
    pub client : KnownClient
    pub registered : Memᴰ client v.clients
    pub same_id : client.client_id ≡ id.client_id
    pub granted : any_of scope client.scopes ≡ true
    pub signed :
        ops.payload.verify_payload client.client_pub request.params hom.nonce hom.ts hom.signature
        ≡ ok true
    pub permitted :
        (str_eq request.method "events.security"
          || (not (is_forbidden (policy_ops ops) request.method request.params)
              && permitted_method request.method))
        ≡ true

  dispatched_only :
      (s : String) (hom : HomEnvelope) (id : VerifiedIdentity)
      → required_scope request.method ≡ some s
      → request.hom ≡ some hom
      → (verify_body ops.payload now request.params hom (some s) v).1 ≡ ok id
      → (evaluate_request (policy_ops ops) request.method request.params).allowed ≡ true
      → Authorised id
  dispatched_only s hom id d e h a =
      let (client, mem, same, key, scopes, vouched) =
        accepted_is_Vouched ops.payload request.params hom (some s) now v id h in
      record {
        scope = s;
        demanded = d;
        hom = hom;
        enveloped = e;
        client = client;
        registered = mem;
        same_id = same ∙ sym (ap (λ i. i.client_id) vouched.identity);
        granted = scopes s vouched.demanded;
        signed = vouched.signed;
        permitted =
            rw (evaluate_request_allows (policy_ops ops) request.method request.params) at a;
      }

  -- A line reaches the application only if its method has a required scope, its envelope is signed
  -- by the registered key of a known client to which that scope is granted, and the policy allows
  -- it: it is security telemetry, or a permitted method with nothing forbidden in it.
  pub dispatched_is_Authorised :
      (id : VerifiedIdentity)
      → (process_frame ops now (some request) v).1 ≡ dispatched id
      → Authorised id
  unfolding process_frame verify_request consult_policy
  dispatched_is_Authorised id h = elim (Option-cases (required_scope request.method)) [
    | inl e ↦ cc (rw e at h)
    | inr (s, e) ↦ elim (Option-cases request.hom) [
      | inl f ↦ cc (rw (e, f) at h)
      | inr (hom, f) ↦
          elim (Result-cases (verify_body ops.payload now request.params hom (some s) v).1) [
            | inr (x, g) ↦ cc (rw (e, f, g) at h)
            | inl (who, g) ↦
                elim (Bool-cases
                  (evaluate_request (policy_ops ops) request.method request.params).allowed) [
                    | inr a ↦ cc (rw (e, f, g, a) at h)
                    | inl a ↦
                        let same : who ≡ id = cc (rw (e, f, g, a) at h) in
                        rw (sym same) (dispatched_only s hom who e f g a)
                  ]
          ]
    ]
  ]

-- ===== src/Crypto/Accept.antt =====
-- The request that a client builds with its key pair (crates/hom-shared/src/envelope.rs,
-- `build_request`) passes the verifier, with the signatures of crates/hom-shared/src/crypto.rs.
use hom_local.Prelude.{
  Result-cases, sym, inl, inr, String, true, false, ◌≡◌, List, Option, some, ok, ◌==◌,
}
use hom_local.Prelude.Int.{ℤ}
use hom_local.Json.{Value}
use hom_local.Envelope.{
  HomEnvelope, KnownClient, EnvelopeVerifier, is_empty, find_client, all_granted, has_required,
  is_skewed, contains_key, nonce_key, prune_nonces, build_envelope, verify_body,
}
use hom_local.Envelope.Admission.{remember}
use hom_local.Envelope.Payload.{build_then_verify}
use hom_local.Crypto.{
  CryptoOps, KeyPair, payload_ops, sign_payload, signing_payload, sign_then_verify,
}

module _ (ops : CryptoOps) where
  -- Base64 decodes what it encoded, and gives no empty text for the 64 bytes of a signature.
  pub record IsBase64 : Type 0 where
    pub round_trip : (bytes : ops.Bytes) → ops.decode (ops.encode bytes) ≡ some bytes
    pub nonempty :
        (bytes : ops.Bytes)
        → (ops.byte_count bytes == 64) ≡ true
        → is_empty (ops.encode bytes) ≡ false

  sign_payload_nonempty :
      (private_key client_pub nonce : String) (ts : ℤ) (body : Value ops.serde.Number)
      (signature : String)
      → IsBase64
      → KeyPair ops private_key client_pub
      → sign_payload ops private_key body nonce ts ≡ ok signature
      → is_empty signature ≡ false
  unfolding sign_payload
  sign_payload_nonempty private_key client_pub nonce ts body signature base pair h =
      elim (Result-cases (signing_payload ops body nonce ts)) [
        | inr (e, f) ↦ cc (rw (pair.decoded, pair.loaded, f) at h)
        | inl (text, f) ↦
            let made : ops.encode (ops.sign pair.signing_key text) ≡ signature =
              cc (rw (pair.decoded, pair.loaded, f) at h) in
            rw (sym made)
              (base.nonempty (ops.sign pair.signing_key text) (pair.sized_signature text))
      ]

  -- A client that the verifier knows under the public key of a pair builds a request with the
  -- private key. If its id, key and nonce are not empty, its scopes are granted and contain the
  -- demanded one, its timestamp passes the clock test and its nonce is new, the request is accepted
  -- with its id and scopes, and its nonce is remembered. Base64 decodes what it encoded and gives no
  -- empty text for 64 bytes.
  pub honest_client_accepted :
      (body : Value ops.serde.Number) (client_id client_pub private_key nonce : String)
      (scopes : List String) (ts now : ℤ) (required : Option String) (client : KnownClient)
      (v : EnvelopeVerifier) (hom : HomEnvelope)
      → IsBase64
      → KeyPair ops private_key client_pub
      → build_envelope (payload_ops ops) body client_id client_pub private_key scopes nonce ts
        ≡ ok hom
      → is_empty client_id ≡ false
      → is_empty client_pub ≡ false
      → is_empty nonce ≡ false
      → find_client client_id v.clients ≡ some client
      → client.client_pub ≡ client_pub
      → all_granted client.scopes scopes ≡ true
      → has_required required scopes ≡ true
      → is_skewed now ts v.skew_seconds ≡ false
      → contains_key (nonce_key client_id nonce ts) (prune_nonces now v).seen_nonces ≡ false
      → verify_body (payload_ops ops) now body hom required v ≡ (
        remember (nonce_key client_id nonce ts) (prune_nonces now v),
        ok (record { client_id = client_id; scopes = scopes }),
      )
  honest_client_accepted body client_id client_pub private_key nonce scopes ts now required client v
        hom base pair built =
      build_then_verify (payload_ops ops) body client_id client_pub private_key nonce scopes ts now
        required client v hom built
        (λ signature made. (
          sign_payload_nonempty private_key client_pub nonce ts body signature base pair made,
          sign_then_verify ops private_key client_pub nonce ts body signature pair base.round_trip
              made,
        ))

-- ===== src/Envelope/Refusals.antt =====
-- Refused requests and the nonces of the verifier in crates/hom-shared/src/envelope.rs: which
-- refusals use a nonce up, and what becomes of a nonce that is forgotten.
use hom_local.Prelude.{
  ℕ, ◌≤◌, ◌<◌, ◌≡◌, refl, sym, String, true, false, Option, none, some, Result, err, inl, inr,
  Bool-cases, Result-cases, str_eq, eq_iff,
}
use hom_local.Prelude.Int.{ℤ, pos}
use hom_local.I64.{InI64}
use hom_local.Envelope.{
  HomEnvelope, KnownClient, VerifiedIdentity, PayloadOps, NonceKey, EnvelopeVerifier, EnvelopeError,
  unknown_client, nonce_replay, clock_skew, malformed, contains_key, prune_nonces, is_skewed,
  find_client, all_granted, has_required, is_malformed, check_payload, admit_nonce, verify_client,
  verify_body,
}
use hom_local.Envelope.Clock.{two62, is_retained, dropped_is_skewed}
use hom_local.Envelope.Keys.{retains-nonce_key, contains_key-retained}
use hom_local.Envelope.Admission.{remember, key_of}
use hom_local.Envelope.Replay.{HasMargins}

-- The verifier after a call, as its answer tells it: a request that is malformed, of an unknown
-- client or out of time leaves it as it was; one that is replayed leaves the pruned nonces; any other
-- answer, also a refusal of the body, the scopes or the signature, uses the nonce up.
abbrev pub after_answer :
    ℤ → NonceKey → EnvelopeVerifier → Result EnvelopeError VerifiedIdentity → EnvelopeVerifier
after_answer now k v (err malformed) = v
after_answer now k v (err unknown_client) = v
after_answer now k v (err clock_skew) = v
after_answer now k v (err nonce_replay) = prune_nonces now v
after_answer now k v _ = remember k (prune_nonces now v)

module _ (ops : PayloadOps) (now : ℤ) (body : ops.Body) (hom : HomEnvelope)
    (required : Option String) where
  late :
      (client : KnownClient) (v : EnvelopeVerifier)
      → after_answer now (key_of hom) v (check_payload ops body hom required client)
        ≡ remember (key_of hom) (prune_nonces now v)
  unfolding check_payload
  late client v = elim (Result-cases (ops.canonical_json body)) [
    | inr (e, f) ↦ rw f refl
    | inl (text, f) ↦ elim (Bool-cases (str_eq (ops.sha256_hex text) hom.body_hash)) [
      | inr g ↦ rw (f, g) refl
      | inl g ↦ elim (Bool-cases (all_granted client.scopes hom.scope)) [
        | inr a ↦ rw (f, g, a) refl
        | inl a ↦ elim (Bool-cases (has_required required hom.scope)) [
          | inr b ↦ rw (f, g, a, b) refl
          | inl b ↦
              elim (Result-cases
                (ops.verify_payload client.client_pub body hom.nonce hom.ts hom.signature)) [
                  | inr (e, c) ↦ rw (f, g, a, b, c) refl
                  | inl (true, c) ↦ rw (f, g, a, b, c) refl
                  | inl (false, c) ↦ rw (f, g, a, b, c) refl
                ]
        ]
      ]
    ]
  ]

  admitted_answer :
      (client : KnownClient) (v : EnvelopeVerifier)
      → let (v', answer) = admit_nonce ops body hom required client (prune_nonces now v) in
        v' ≡ after_answer now (key_of hom) v answer
  unfolding admit_nonce
  admitted_answer client v =
      elim (Bool-cases (contains_key (key_of hom) (prune_nonces now v).seen_nonces)) [
        | inl e ↦ rw e refl
        | inr e ↦ rw e (sym (late client v))
      ]

  client_answer :
      (c : Option KnownClient) (v : EnvelopeVerifier)
      → let (v', answer) = verify_client ops now body hom required c v in
        v' ≡ after_answer now (key_of hom) v answer
  unfolding verify_client
  client_answer none v = refl
  client_answer (some client) v = elim (Bool-cases (str_eq client.client_pub hom.client_pub)) [
    | inr e ↦ rw e refl
    | inl e ↦ elim (Bool-cases (is_skewed now hom.ts v.skew_seconds)) [
      | inl f ↦ rw (e, f) refl
      | inr f ↦ rw (e, f) (admitted_answer client v)
    ]
  ]

  -- The answer of a call alone tells which nonces are remembered after it: a request that is
  -- malformed, of an unknown client or out of time changes nothing, one whose nonce is remembered
  -- only prunes, and any other, accepted or refused for its body, its scopes or its signature, prunes
  -- and adds its nonce.
  pub answer_tells_nonces :
      (v : EnvelopeVerifier)
      → let (v', answer) = verify_body ops now body hom required v in
        v' ≡ after_answer now (key_of hom) v answer
  unfolding verify_body
  answer_tells_nonces v = elim (Bool-cases (is_malformed ops hom)) [
    | inl e ↦ rw e refl
    | inr e ↦ rw e (client_answer (find_client hom.client_id v.clients) v)
  ]

  forgotten_is_not_retained :
      (v : EnvelopeVerifier) (s l : ℕ)
      → HasMargins v s l
      → InI64 hom.ts
      → contains_key (key_of hom) v.seen_nonces ≡ true
      → contains_key (key_of hom) (prune_nonces now v).seen_nonces ≡ false
      → is_retained now (pos l) hom.ts ≡ false
  unfolding prune_nonces
  forgotten_is_not_retained v s l m i held gone =
      elim (Bool-cases (is_retained now (pos l) hom.ts)) [
        | inr e ↦ e
        | inl e ↦
            let kept =
              contains_key-retained now v.nonce_ttl_seconds (key_of hom) v.seen_nonces
                (rw m.ttl (rw (retains-nonce_key now (pos l) hom.ts hom.client_id hom.nonce i) e))
                held in
            cc (kept, gone)
      ]

-- Let a request pass the clock test at one time, and let pruning at a later time drop its nonce from
-- those remembered, where the margin of the clock test is at most the time for which nonces are
-- remembered. Then at every time from there on, below 2^62 as the time to live, the request with its
-- client's key is refused for its timestamp, which is an i64, by every verifier with that margin,
-- which it leaves as it was.
pub forgotten_is_refused :
    (ops : PayloadOps) (body : ops.Body) (hom : HomEnvelope) (required : Option String)
    (client : KnownClient) (v w : EnvelopeVerifier) (t₀ t u s l : ℕ)
    → HasMargins v s l
    → w.skew_seconds ≡ pos s
    → s ≤ l
    → l < two62
    → InI64 hom.ts
    → t₀ ≤ t
    → t ≤ u
    → u < two62
    → client.client_pub ≡ hom.client_pub
    → is_skewed (pos t₀) hom.ts (pos s) ≡ false
    → contains_key (key_of hom) v.seen_nonces ≡ true
    → contains_key (key_of hom) (prune_nonces (pos t) v).seen_nonces ≡ false
    → verify_client ops (pos u) body hom required (some client) w ≡ (w, err clock_skew)
unfolding verify_client
forgotten_is_refused ops body hom required client v w t₀ t u s l m margin a b i c d e same on_time
      held gone =
    let dropped = forgotten_is_not_retained ops (pos t) body hom required v s l m i held gone in
    rw
      (
        (eq_iff client.client_pub hom.client_pub).1 same,
        margin,
        dropped_is_skewed hom.ts t₀ t u s l i c d e a b on_time dropped,
      )
      refl

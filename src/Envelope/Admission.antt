-- ===== src/Envelope/Admission.antt =====
-- When the verifier of crates/hom-shared/src/envelope.rs accepts a request, and what each call
-- does to the nonces that it remembers.
use hom_local.Prelude.{
  ◌≡◌, refl, inl, inr, String, false, ◌∷◌, Option, none, some, str_eq, eq_iff, ok, Bool-cases,
  Option-cases,
}
use hom_local.Prelude.Int.{ℤ}
use hom_local.Envelope.{
  HomEnvelope, KnownClient, VerifiedIdentity, PayloadOps, NonceKey, EnvelopeVerifier, find_client,
  nonce_key, contains_key, prune_nonces, is_skewed, check_payload, admit_nonce, verify_client,
  is_malformed, verify_body,
}

abbrev pub remember : NonceKey → EnvelopeVerifier → EnvelopeVerifier
remember k v = record v { seen_nonces = k ∷ v.seen_nonces }

-- What a call does to the verifier.
pub data Effect (now : ℤ) (k : NonceKey) (v v' : EnvelopeVerifier) : Type 0 where
  untouched : v' ≡ v → Effect now k v v'
  pruned : v' ≡ prune_nonces now v → Effect now k v v'
  inserted : v' ≡ remember k (prune_nonces now v) → Effect now k v v'

abbrev pub key_of : HomEnvelope → NonceKey
key_of hom = nonce_key hom.client_id hom.nonce hom.ts

module _ (ops : PayloadOps) where
  -- The conditions of acceptance, for the client found.
  pub record Admitted (now : ℤ) (body : ops.Body) (hom : HomEnvelope) (required : Option String)
      (v : EnvelopeVerifier) (id : VerifiedIdentity) : Type 0 where
    pub well_formed : is_malformed ops hom ≡ false
    pub client : KnownClient
    pub known : find_client hom.client_id v.clients ≡ some client
    pub same_key : client.client_pub ≡ hom.client_pub
    pub on_time : is_skewed now hom.ts v.skew_seconds ≡ false
    pub new_nonce : contains_key (key_of hom) (prune_nonces now v).seen_nonces ≡ false
    pub payload : check_payload ops body hom required client ≡ ok id

  module _ (now : ℤ) (body : ops.Body) (hom : HomEnvelope) (required : Option String) where
    admit_nonce-Effect :
        (client : KnownClient) (v : EnvelopeVerifier)
        → Effect now
            (key_of hom)
            v
            (admit_nonce ops body hom required client (prune_nonces now v)).0
    unfolding admit_nonce
    admit_nonce-Effect client v =
        elim (Bool-cases (contains_key (key_of hom) (prune_nonces now v).seen_nonces)) [
          | inl e ↦ pruned (rw e refl)
          | inr e ↦ inserted (rw e refl)
        ]

    verify_client-Effect :
        (c : Option KnownClient) (v : EnvelopeVerifier)
        → Effect now (key_of hom) v (verify_client ops now body hom required c v).0
    unfolding verify_client
    verify_client-Effect none v = untouched refl
    verify_client-Effect (some client) v =
        elim (Bool-cases (str_eq client.client_pub hom.client_pub)) [
          | inr e ↦ untouched (rw e refl)
          | inl e ↦ elim (Bool-cases (is_skewed now hom.ts v.skew_seconds)) [
            | inl f ↦ untouched (rw (e, f) refl)
            | inr f ↦ rw (e, f) (admit_nonce-Effect client v)
          ]
        ]

    pub verify_body-Effect :
        (v : EnvelopeVerifier)
        → Effect now (key_of hom) v (verify_body ops now body hom required v).0
    unfolding verify_body
    verify_body-Effect v = elim (Bool-cases (is_malformed ops hom)) [
      | inl e ↦ untouched (rw e refl)
      | inr e ↦ rw e (verify_client-Effect (find_client hom.client_id v.clients) v)
    ]

    -- A request that meets the conditions is accepted, and its nonce is remembered.
    pub verify_body_complete :
        (v : EnvelopeVerifier) (id : VerifiedIdentity)
        → Admitted now body hom required v id
        → verify_body ops now body hom required v
          ≡ (remember (key_of hom) (prune_nonces now v), ok id)
    unfolding verify_body verify_client admit_nonce
    verify_body_complete v id a =
        rw (a.well_formed, a.known)
          (rw ((eq_iff a.client.client_pub hom.client_pub).1 a.same_key)
            (rw (a.on_time) (rw (a.new_nonce) (rw a.payload refl))))

    -- An accepted request meets the conditions.
    pub verify_body_sound :
        (v : EnvelopeVerifier) (id : VerifiedIdentity)
        → (verify_body ops now body hom required v).1 ≡ ok id
        → Admitted now body hom required v id
    unfolding verify_body verify_client admit_nonce
    verify_body_sound v id h = elim (Bool-cases (is_malformed ops hom)) [
      | inl e ↦ cc (rw e at h)
      | inr e ↦ elim (Option-cases (find_client hom.client_id v.clients)) [
        | inl f ↦ cc (rw (e, f) at h)
        | inr (client, f) ↦ elim (Bool-cases (str_eq client.client_pub hom.client_pub)) [
          | inr g ↦ cc (rw (e, f, g) at h)
          | inl g ↦ elim (Bool-cases (is_skewed now hom.ts v.skew_seconds)) [
            | inl s ↦ cc (rw (e, f, g, s) at h)
            | inr s ↦
                elim (Bool-cases (contains_key (key_of hom) (prune_nonces now v).seen_nonces)) [
                  | inl k ↦ cc (rw (e, f, g, s, k) at h)
                  | inr k ↦ record {
                    well_formed = e;
                    client = client;
                    known = f;
                    same_key = (eq_iff client.client_pub hom.client_pub).0 g;
                    on_time = s;
                    new_nonce = k;
                    payload = rw (e, f, g, s, k) at h;
                  }
                ]
          ]
        ]
      ]
    ]

-- ===== src/Envelope/Payload.antt =====
-- What acceptance by the verifier of crates/hom-shared/src/envelope.rs means, and that a request
-- built by `build_request` is accepted.
use mathlib.Core.List.{Memᴰ}
use hom_local.Prelude.{
  Result-cases, ◌≡◌, refl, sym, ap, ◌∙◌, inl, inr, String, true, false, List, [], ◌∷◌, Option, some,
  str_eq, eq_iff, Result, ok, ◌>>=◌, ◌>>◌, map_err, arith, any_of, Bool-cases, Option-cases,
}
use hom_local.Prelude.Int.{ℤ}
use hom_local.Envelope.{
  HomEnvelope, KnownClient, VerifiedIdentity, EnvelopeError, signature_invalid, crypto, PayloadOps,
  EnvelopeVerifier, find_client, nonce_key, contains_key, prune_nonces, is_skewed, is_empty,
  all_granted, has_required, guard, check_payload, verify_body, build_envelope,
}
use hom_local.Envelope.Admission.{remember, verify_body_sound, verify_body_complete}

find_client-mem :
    (id : String) (cs : List KnownClient) {c : KnownClient}
    → find_client id cs ≡ some c
    → Memᴰ c cs × (c.client_id ≡ id)
unfolding find_client
find_client-mem id [] h = cc
find_client-mem id (x ∷ cs) {c} h = elim (Option-cases (find_client id cs)) [
  | inr (later, e) ↦
      let same : some later ≡ some c = rw e at h in
      let (m, i) = find_client-mem id cs {c = c} (e ∙ same) in (Memᴰ.tail m, i)
  | inl e ↦ elim (Bool-cases (str_eq x.client_id id)) [
    | inl f ↦
        let found : some x ≡ some c = rw (e, f) at h in
        let same : x ≡ c = cc in (Memᴰ.head (sym same), rw (← same) ((eq_iff x.client_id id).0 f))
    | inr f ↦ cc (rw (e, f) at h)
  ]
]

all_granted_sound :
    (granted scope : List String)
    → all_granted granted scope ≡ true
    → (s : String) → any_of s scope ≡ true
    → any_of s granted ≡ true
all_granted_sound granted [] h s m = cc
all_granted_sound granted (x ∷ scope) h s m = elim (Bool-cases (str_eq s x)) [
  | inl e ↦ rw ((eq_iff s x).0 e) (ground arith)
  | inr e ↦ all_granted_sound granted scope (ground arith) s (ground arith)
]

module _ (ops : PayloadOps) where
  -- What the payload's checks establish.
  pub record Vouched (body : ops.Body) (hom : HomEnvelope) (required : Option String)
      (client : KnownClient) (id : VerifiedIdentity) : Type 0 where
    pub text : String
    pub canonical_text : ops.canonical_json body ≡ ok text
    pub hash_matches : ops.sha256_hex text ≡ hom.body_hash
    pub granted : all_granted client.scopes hom.scope ≡ true
    pub demanded : has_required required hom.scope ≡ true
    pub signed : ops.verify_payload client.client_pub body hom.nonce hom.ts hom.signature ≡ ok true
    pub identity : id ≡ record { client_id = hom.client_id; scopes = hom.scope }

  module _ (body : ops.Body) (hom : HomEnvelope) (required : Option String)
      (client : KnownClient) where
    abbrev signature_check : Result EnvelopeError VerifiedIdentity
    signature_check = do
      valid ←
          map_err crypto (ops.verify_payload client.client_pub body hom.nonce hom.ts hom.signature)
      guard valid signature_invalid
      ok (record { client_id = hom.client_id; scopes = hom.scope })

    identity_of :
        (id : VerifiedIdentity)
        → ◌≡◌ {A = Result EnvelopeError VerifiedIdentity}
            (ok (record { client_id = hom.client_id; scopes = hom.scope }))
            (ok id)
        → id ≡ record { client_id = hom.client_id; scopes = hom.scope }
    identity_of id h = cc

    signature_sound :
        (id : VerifiedIdentity) (text : String)
        → ops.canonical_json body ≡ ok text
        → str_eq (ops.sha256_hex text) hom.body_hash ≡ true
        → all_granted client.scopes hom.scope ≡ true
        → has_required required hom.scope ≡ true
        → signature_check ≡ ok id
        → Vouched body hom required client id
    signature_sound id text p q g d h =
        elim (Result-cases
          (ops.verify_payload client.client_pub body hom.nonce hom.ts hom.signature)) [
            | inr (e, r) ↦ cc (rw r at h)
            | inl (false, r) ↦ cc (rw r at h)
            | inl (true, r) ↦ record {
              text = text;
              canonical_text = p;
              hash_matches = (eq_iff (ops.sha256_hex text) hom.body_hash).0 q;
              granted = g;
              demanded = d;
              signed = r;
              identity = identity_of id (rw r at h);
            }
          ]

    check_payload_sound :
        (id : VerifiedIdentity)
        → check_payload ops body hom required client ≡ ok id
        → Vouched body hom required client id
    unfolding check_payload
    check_payload_sound id h = elim (Result-cases (ops.canonical_json body)) [
      | inr (e, p) ↦ cc (rw p at h)
      | inl (text, p) ↦ elim (Bool-cases (str_eq (ops.sha256_hex text) hom.body_hash)) [
        | inr q ↦ cc (rw (p, q) at h)
        | inl q ↦ elim (Bool-cases (all_granted client.scopes hom.scope)) [
          | inr g ↦ cc (rw (p, q, g) at h)
          | inl g ↦ elim (Bool-cases (has_required required hom.scope)) [
            | inr d ↦ cc (rw (p, q, g, d) at h)
            | inl d ↦ signature_sound id text p q g d (rw (p, q, g, d) at h)
          ]
        ]
      ]
    ]

    check_payload_complete :
        (id : VerifiedIdentity)
        → Vouched body hom required client id
        → check_payload ops body hom required client ≡ ok id
    unfolding check_payload
    check_payload_complete id v = rw (v.canonical_text) (
        rw ((eq_iff _ _).1 v.hash_matches)
          (rw (v.granted, v.demanded) (rw (v.signed) (ap ok (sym v.identity)))))

  module _ (body : ops.Body) (hom : HomEnvelope) (required : Option String) where
    -- What an accepted request establishes: its client is one of the known clients, under the
    -- public key given; the body's canonical text has the hash given; every scope claimed is
    -- granted to that client, and the demanded scope is among them; the signature verifies under
    -- the client's key; and the identity returned is that client with those scopes.
    pub accepted_is_Vouched :
        (now : ℤ) (v : EnvelopeVerifier) (id : VerifiedIdentity)
        → (verify_body ops now body hom required v).1 ≡ ok id
        → (c : KnownClient) × Memᴰ c v.clients
          × (c.client_id ≡ hom.client_id)
          × (c.client_pub ≡ hom.client_pub)
          × ((s : String) → any_of s hom.scope ≡ true → any_of s c.scopes ≡ true)
          × Vouched body hom required c id
    accepted_is_Vouched now v id h =
        let adm = verify_body_sound ops now body hom required v id h in
        let (mem, same_id) = find_client-mem hom.client_id v.clients adm.known in
        let vouched = check_payload_sound body hom required adm.client id adm.payload in
        (
          adm.client,
          mem,
          same_id,
          adm.same_key,
          all_granted_sound adm.client.scopes hom.scope vouched.granted,
          vouched,
        )

  module _ (body : ops.Body) (client_id client_pub private_key nonce : String)
      (scopes : List String) (ts : ℤ) where
    abbrev envelope_with : String → String → HomEnvelope
    envelope_with hash sig = record {
      client_id = client_id;
      client_pub = client_pub;
      ts = ts;
      nonce = nonce;
      scope = scopes;
      body_hash = hash;
      signature = sig;
    }

    envelope_eq :
        (x hom : HomEnvelope) → ◌≡◌ {A = Result EnvelopeError HomEnvelope} (ok x) (ok hom) → hom ≡ x
    envelope_eq x hom h = cc

    build_envelope_parts :
        (hom : HomEnvelope)
        → build_envelope ops body client_id client_pub private_key scopes nonce ts ≡ ok hom
        → (text sig : String) × (ops.canonical_json body ≡ ok text)
          × (ops.sign_payload private_key body nonce ts ≡ ok sig)
          × (hom ≡ envelope_with (ops.sha256_hex text) sig)
    unfolding build_envelope
    build_envelope_parts hom h = elim (Result-cases (ops.canonical_json body)) [
      | inr (e, p) ↦ cc (rw p at h)
      | inl (text, p) ↦ elim (Result-cases (ops.sign_payload private_key body nonce ts)) [
        | inr (e, q) ↦ cc (rw (p, q) at h)
        | inl (sig, q) ↦ (
          text,
          sig,
          p,
          q,
          envelope_eq (envelope_with (ops.sha256_hex text) sig) hom (rw (p, q) at h),
        )
      ]
    ]

  -- A request built by `build_request` with a key pair that signs verifiably is accepted by a
  -- verifier that knows the client under that public key, if the clock agrees, the nonce is new,
  -- and the scopes are granted and contain the demanded one; and its nonce is then remembered.
  pub build_then_verify :
      (body : ops.Body) (client_id client_pub private_key nonce : String) (scopes : List String)
      (ts now : ℤ) (required : Option String) (client : KnownClient) (v : EnvelopeVerifier)
      (hom : HomEnvelope)
      → build_envelope ops body client_id client_pub private_key scopes nonce ts ≡ ok hom
      → ((sig : String)
          → ops.sign_payload private_key body nonce ts ≡ ok sig
          → (is_empty sig ≡ false) × (ops.verify_payload client_pub body nonce ts sig ≡ ok true))
      → is_empty client_id ≡ false
      → is_empty client_pub ≡ false
      → is_empty nonce ≡ false
      → find_client client_id v.clients ≡ some client
      → client.client_pub ≡ client_pub
      → all_granted client.scopes scopes ≡ true
      → has_required required scopes ≡ true
      → is_skewed now ts v.skew_seconds ≡ false
      → contains_key (nonce_key client_id nonce ts) (prune_nonces now v).seen_nonces ≡ false
      → verify_body ops now body hom required v ≡ (
        remember (nonce_key client_id nonce ts) (prune_nonces now v),
        ok (record { client_id = client_id; scopes = scopes }),
      )
  build_then_verify body client_id client_pub private_key nonce scopes ts now required client v hom
        built law a b c known same granted demanded on_time new =
      let (text, sig, p, q, e) =
        build_envelope_parts body client_id client_pub private_key nonce scopes ts hom built in
      let (d, valid) = law sig q in
      rw e (
        verify_body_complete ops now body
          (envelope_with body client_id client_pub private_key nonce scopes ts (ops.sha256_hex text)
            sig)
          required v (record { client_id = client_id; scopes = scopes })
          (record {
            well_formed = rw (a, b, c, d) refl;
            client = client;
            known = known;
            same_key = same;
            on_time = on_time;
            new_nonce = new;
            payload =
                check_payload_complete body
                  (envelope_with body client_id client_pub private_key nonce scopes ts
                    (ops.sha256_hex text) sig)
                  required client (record { client_id = client_id; scopes = scopes })
                  (record {
                    text = text;
                    canonical_text = p;
                    hash_matches = refl;
                    granted = granted;
                    demanded = demanded;
                    signed = rw same valid;
                    identity = refl;
                  });
          }))

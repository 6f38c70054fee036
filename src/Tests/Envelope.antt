-- ===== src/Tests/Envelope.antt =====
-- The verifier of crates/hom-shared/src/envelope.rs on a client's request, over operations that
-- stand for the hash and the signature: a hash that is the text, a signature that is the key.
use mathlib.Core.List.{Memᴰ}
use hom_local.Prelude.{
  sym, ℕ, ◌+◌, ◌≡◌, ◌≢◌, refl, String, true, false, [], ◌∷◌, some, ok, err, str_eq, arith, any_of,
  if◌then◌else◌, ltb, ◌==◌,
}
use hom_local.Prelude.Int.{pos, negsuc, ◌-ℤ◌}
use hom_local.I64.{two63, abs64, sub64}
use hom_local.Envelope.{
  HomEnvelope, KnownClient, VerifiedIdentity, PayloadOps, EnvelopeVerifier, verify_body, is_skewed,
  build_envelope, nonce_key, prune_nonces, find_client, check_payload, admit_nonce, verify_client,
  contains_key, is_empty, signature_invalid, clock_skew,
}
use hom_local.Envelope.Clock.{is_retained, is_skewed_neg}
use hom_local.Envelope.Admission.{Admitted, remember, key_of, verify_body_sound}
use hom_local.Envelope.Keys.{key_eq_refl, retains-nonce_key, contains_key-dropped}
use hom_local.Envelope.Refusals.{after_answer, answer_tells_nonces, forgotten_is_refused}
use hom_local.Envelope.Replay.{Call, serve, after, no_replay}
use hom_local.Envelope.Payload.{Vouched, accepted_is_Vouched, build_then_verify}

abbrev pub ops : PayloadOps
ops = record {
  Body = String;
  canonical_json = λ body. ok body;
  sha256_hex = λ text. text;
  sign_payload = λ key body nonce ts. ok key;
  verify_payload = λ key body nonce ts signature. ok (str_eq key signature);
}

abbrev ui : KnownClient
ui = record { client_id = "ui"; client_pub = "key"; scopes = "memory:save" ∷ "memory:recall" ∷ [] }

abbrev pub verifier : EnvelopeVerifier
verifier = record {
  clients = ui ∷ [];
  seen_nonces = [];
  skew_seconds = pos 30;
  nonce_ttl_seconds = pos 60;
}

abbrev pub request : HomEnvelope
request = record {
  client_id = "ui";
  client_pub = "key";
  ts = pos 1000;
  nonce = "n1";
  scope = "memory:save" ∷ [];
  body_hash = "{}";
  signature = "key";
}

abbrev pub who : VerifiedIdentity
who = record { client_id = "ui"; scopes = "memory:save" ∷ [] }

accepted : (verify_body ops (pos 1010) "{}" request (some "memory:save") verifier).1 ≡ ok who
unfolding verify_body verify_client admit_nonce check_payload find_client is_skewed prune_nonces
    abs64 sub64 ◌-ℤ◌
accepted = refl

verify_body_sound_example : Admitted ops (pos 1010) "{}" request (some "memory:save") verifier who
verify_body_sound_example =
    verify_body_sound ops (pos 1010) "{}" request (some "memory:save") verifier who accepted

abbrev forged : HomEnvelope
forged = record request { signature = "other" }

-- A request with a wrong signature uses its nonce up.
answer_tells_nonces_example :
    (verify_body ops (pos 1010) "{}" forged (some "memory:save") verifier).0
    ≡ after_answer (pos 1010) (key_of forged) verifier (err signature_invalid)
unfolding verify_body verify_client admit_nonce check_payload find_client is_skewed prune_nonces
    abs64 sub64 ◌-ℤ◌
answer_tells_nonces_example =
    answer_tells_nonces ops (pos 1010) "{}" forged (some "memory:save") verifier

accepted_is_Vouched_example :
    (c : KnownClient) × Memᴰ c (ui ∷ [])
    × (c.client_id ≡ "ui")
    × (c.client_pub ≡ "key")
    × ((s : String) → any_of s ("memory:save" ∷ []) ≡ true → any_of s c.scopes ≡ true)
    × Vouched ops "{}" request (some "memory:save") c who
accepted_is_Vouched_example =
    accepted_is_Vouched ops "{}" request (some "memory:save") (pos 1010) verifier who accepted

abbrev call_at : ℕ → Call ops
call_at t = record { now = t; body = "{}"; hom = request; required = some "memory:save" }

no_replay_example :
    (serve ops
      (after ops (call_at 1011 ∷ []) (serve ops verifier (call_at 1010)).0)
      (call_at 1020)).1
    ≢ ok who
no_replay_example =
    no_replay ops verifier (call_at 1010) (call_at 1020) (call_at 1011 ∷ []) 30 60 who who
      (record { skew = refl; ttl = refl }) (omega arith) (omega arith) (omega arith)
      (omega arith, omega arith) (omega arith) refl refl refl accepted

in_time : is_skewed (pos 1010) (pos 1000) (pos 30) ≡ false
unfolding is_skewed abs64 sub64 ◌-ℤ◌
in_time = refl

forgotten : is_retained (pos 1061) (pos 60) (pos 1000) ≡ false
unfolding sub64 ◌-ℤ◌
forgotten = refl

abbrev holding : EnvelopeVerifier
holding = record verifier { seen_nonces = key_of request ∷ [] }

held : contains_key (key_of request) holding.seen_nonces ≡ true
held = rw (key_eq_refl (key_of request)) refl

gone : contains_key (key_of request) (prune_nonces (pos 1061) holding).seen_nonces ≡ false
unfolding prune_nonces
gone =
    contains_key-dropped (pos 1061) (pos 60) (key_of request) (key_of request ∷ [])
      (rw (retains-nonce_key (pos 1061) (pos 60) (pos 1000) "ui" "n1" (omega arith)) forgotten)

forgotten_is_refused_example :
    verify_client ops (pos 1062) "{}" request (some "memory:save") (some ui) verifier
    ≡ (verifier, err clock_skew)
forgotten_is_refused_example =
    forgotten_is_refused ops "{}" request (some "memory:save") ui holding verifier 1010 1061 1062 30
      60 (record { skew = refl; ttl = refl }) refl (omega arith) (omega arith) (omega arith)
      (omega arith) (omega arith) (omega arith) refl in_time held gone

is_skewed_neg_example : is_skewed (pos 1000) (negsuc 9223372036854774807) (pos 30) ≡ (
    if 1000 + 9223372036854774807 + 1 == two63
    then false
    else ltb 30 (1000 + 9223372036854774807 + 1))
is_skewed_neg_example =
    is_skewed_neg 1000 9223372036854774807 30 (omega arith) (omega arith) (omega arith)

built : build_envelope ops "{}" "ui" "key" "key" ("memory:save" ∷ []) "n1" (pos 1000) ≡ ok request
unfolding build_envelope
built = refl

signs :
    (sig : String)
    → ops.sign_payload "key" "{}" "n1" (pos 1000) ≡ ok sig
    → (is_empty sig ≡ false) × (ops.verify_payload "key" "{}" "n1" (pos 1000) sig ≡ ok true)
signs sig h = let e : "key" ≡ sig = cc in rw (sym e) (refl, refl)

known : find_client "ui" (ui ∷ []) ≡ some ui
unfolding find_client
known = refl

unseen :
    contains_key (nonce_key "ui" "n1" (pos 1000)) (prune_nonces (pos 1010) verifier).seen_nonces
    ≡ false
unfolding prune_nonces
unseen = refl

build_then_verify_example :
    verify_body ops (pos 1010) "{}" request (some "memory:save") verifier
    ≡ (remember (nonce_key "ui" "n1" (pos 1000)) (prune_nonces (pos 1010) verifier), ok who)
build_then_verify_example =
    build_then_verify ops "{}" "ui" "key" "key" "n1" ("memory:save" ∷ []) (pos 1000) (pos 1010)
      (some "memory:save") ui verifier request built signs refl refl refl known refl refl refl
      in_time unseen

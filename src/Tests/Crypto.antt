-- ===== src/Tests/Crypto.antt =====
-- Signing and verifying (crates/hom-shared/src/crypto.rs) over operations that stand for base64 and
-- Ed25519: bytes are texts, and a key of 64 bytes signs a text by naming itself.
use hom_local.I64.{abs64, sub64}
use hom_local.Envelope.{
  is_empty, HomEnvelope, KnownClient, EnvelopeVerifier, verify_body, build_envelope, nonce_key,
  contains_key, prune_nonces, find_client, is_skewed,
}
use hom_local.Envelope.Admission.{remember}
use hom_local.Crypto.Accept.{honest_client_accepted}
use hom_local.Prelude.{
  Bool-cases, ap, length, codes, ◌==◌, inl, inr, eq_iff, false, [], ◌∷◌, String, true, ◌≡◌, refl,
  some, ok, str_eq,
}
use hom_local.Prelude.Int.{pos, ◌-ℤ◌}
use hom_local.Json.{null, canonical_json, write_value}
use hom_local.Crypto.{
  CryptoOps, payload_ops, KeyPair, sign_payload, verify_payload, signing_payload, sign_then_verify,
}
use hom_local.Tests.Json.{serde}

abbrev key : String
key = "kkkkkkkkkkkkkkkkkkkkkkkkkkkkkkkkkkkkkkkkkkkkkkkkkkkkkkkkkkkkkkkk"

abbrev crypto : CryptoOps
crypto = record {
  serde = serde;
  Bytes = String;
  SigningKey = String;
  VerifyingKey = String;
  decode = λ text. some text;
  encode = λ bytes. bytes;
  byte_count = λ bytes. length (codes bytes);
  from_pkcs8_der = λ der. some der;
  from_public_key_der = λ der. some der;
  sign = λ signer text. signer;
  verify = λ verifier text signature. str_eq verifier signature;
  sha256_hex = λ text. text;
  display_i64 = λ z. "0";
}

pair : KeyPair crypto key key
pair = record {
  private_der = key;
  decoded = refl;
  signing_key = key;
  loaded = refl;
  public_der = key;
  decoded_public = refl;
  verifying_key = key;
  loaded_public = refl;
  verifies = λ text. refl;
  sized_signature = λ text. refl;
}

signed : sign_payload crypto key null "n1" (pos 0) ≡ ok key
unfolding sign_payload signing_payload canonical_json write_value
signed = refl

sign_then_verify_example : verify_payload crypto key null "n1" (pos 0) key ≡ ok true
sign_then_verify_example =
    sign_then_verify crypto key key "n1" (pos 0) null key pair (λ bytes. refl) signed

abbrev client : KnownClient
client = record { client_id = "ui"; client_pub = key; scopes = "memory:save" ∷ [] }

abbrev verifier : EnvelopeVerifier
verifier = record {
  clients = client ∷ [];
  seen_nonces = [];
  skew_seconds = pos 30;
  nonce_ttl_seconds = pos 60;
}

abbrev request : HomEnvelope
request = record {
  client_id = "ui";
  client_pub = key;
  ts = pos 0;
  nonce = "n1";
  scope = "memory:save" ∷ [];
  body_hash = "null";
  signature = key;
}

encoded_nonempty : (bytes : String) → (length (codes bytes) == 64) ≡ true → is_empty bytes ≡ false
encoded_nonempty bytes sized = elim (Bool-cases (is_empty bytes)) [
  | inl e ↦ cc (sized, ap (λ s. length (codes s) == 64) ((eq_iff bytes "").0 e))
  | inr e ↦ e
]

built :
    build_envelope (payload_ops crypto) null "ui" key key ("memory:save" ∷ []) "n1" (pos 0)
    ≡ ok request
unfolding build_envelope sign_payload signing_payload canonical_json write_value
built = refl

known : find_client "ui" (client ∷ []) ≡ some client
unfolding find_client
known = refl

on_time : is_skewed (pos 10) (pos 0) (pos 30) ≡ false
unfolding is_skewed abs64 sub64 ◌-ℤ◌
on_time = refl

unseen :
    contains_key (nonce_key "ui" "n1" (pos 0)) (prune_nonces (pos 10) verifier).seen_nonces ≡ false
unfolding prune_nonces
unseen = refl

honest_client_accepted_example :
    verify_body (payload_ops crypto) (pos 10) null request (some "memory:save") verifier ≡ (
      remember (nonce_key "ui" "n1" (pos 0)) (prune_nonces (pos 10) verifier),
      ok (record { client_id = "ui"; scopes = "memory:save" ∷ [] }),
    )
honest_client_accepted_example =
    honest_client_accepted crypto null "ui" key key "n1" ("memory:save" ∷ []) (pos 0) (pos 10)
      (some "memory:save") client verifier request
      (record { round_trip = λ bytes. refl; nonempty = encoded_nonempty }) pair built refl refl refl
      known refl refl refl on_time unseen

-- ===== src/Crypto.antt =====
-- Signing and verifying a payload (crates/hom-shared/src/crypto.rs) over base64, PKCS#8 keys,
-- Ed25519 and SHA-256, which are third-party and parameters here. `payload_ops` is what the
-- envelope uses of it.
pub mod Accept
use Prim.Native.String.{◌++◌ as append}
use hom_local.Prelude.{
  Result-cases, ℕ, String, Bool, true, Option, none, some, ◌==◌, ◌≡◌, refl, sym, inl, inr, Result,
  ok, err, ◌>>=◌, map_err, if◌then◌else◌,
}
use hom_local.Prelude.Int.{ℤ}
use hom_local.Json.{Serde, Value, canonical_json}
use hom_local.Envelope.{
  CryptoError, invalid_base64, invalid_key, invalid_signature, canonical_failed, PayloadOps,
}

pub record CryptoOps : Type 1 where
  pub serde : Serde
  pub Bytes : Type 0
  pub SigningKey : Type 0
  pub VerifyingKey : Type 0
  pub decode : String → Option Bytes
  pub encode : Bytes → String
  pub byte_count : Bytes → ℕ
  pub from_pkcs8_der : Bytes → Option SigningKey
  pub from_public_key_der : Bytes → Option VerifyingKey
  pub sign : SigningKey → String → Bytes
  pub verify : VerifyingKey → String → Bytes → Bool
  pub sha256_hex : String → String
  pub display_i64 : ℤ → String

abbrev ok_or : {A : Type 0} → CryptoError → Option A → Result CryptoError A
ok_or e none = err e
ok_or e (some a) = ok a

module _ (ops : CryptoOps) where
  unfoldable pub signing_payload : Value ops.serde.Number → String → ℤ → Result CryptoError String
  signing_payload body nonce ts = do
    text ← map_err canonical_failed (canonical_json ops.serde body)
    ok (append text (append "\n" (append nonce (append "\n" (ops.display_i64 ts)))))

  unfoldable pub sign_payload :
      String → Value ops.serde.Number → String → ℤ → Result CryptoError String
  sign_payload private_key body nonce ts = do
    private_der ← ok_or invalid_base64 (ops.decode private_key)
    signing_key ← ok_or invalid_key (ops.from_pkcs8_der private_der)
    text ← signing_payload body nonce ts
    ok (ops.encode (ops.sign signing_key text))

  -- `try_into` an array of 64 bytes
  abbrev sized : ops.Bytes → Option ops.Bytes
  sized bytes = if ops.byte_count bytes == 64 then some bytes else none

  unfoldable pub verify_payload :
      String → Value ops.serde.Number → String → ℤ → String → Result CryptoError Bool
  verify_payload client_pub body nonce ts signature = do
    public_der ← ok_or invalid_base64 (ops.decode client_pub)
    verifying_key ← ok_or invalid_key (ops.from_public_key_der public_der)
    bytes ← ok_or invalid_base64 (ops.decode signature)
    bytes ← ok_or invalid_signature (sized bytes)
    text ← signing_payload body nonce ts
    ok (ops.verify verifying_key text bytes)

  abbrev pub payload_ops : PayloadOps
  payload_ops = record {
    Body = Value ops.serde.Number;
    canonical_json = canonical_json ops.serde;
    sha256_hex = ops.sha256_hex;
    sign_payload = sign_payload;
    verify_payload = verify_payload;
  }

  -- Two texts are a key pair: both decode, and the public key verifies what the private key signs.
  pub record KeyPair (private_key client_pub : String) : Type 0 where
    pub private_der : ops.Bytes
    pub decoded : ops.decode private_key ≡ some private_der
    pub signing_key : ops.SigningKey
    pub loaded : ops.from_pkcs8_der private_der ≡ some signing_key
    pub public_der : ops.Bytes
    pub decoded_public : ops.decode client_pub ≡ some public_der
    pub verifying_key : ops.VerifyingKey
    pub loaded_public : ops.from_public_key_der public_der ≡ some verifying_key
    pub verifies :
        (text : String) → ops.verify verifying_key text (ops.sign signing_key text) ≡ true
    pub sized_signature :
        (text : String) → (ops.byte_count (ops.sign signing_key text) == 64) ≡ true

  -- What a key of a pair signs, the other key verifies, for the same body, nonce and timestamp, if
  -- base64 decodes what it encoded.
  pub sign_then_verify :
      (private_key client_pub nonce : String) (ts : ℤ) (body : Value ops.serde.Number)
      (signature : String)
      → KeyPair private_key client_pub
      → ((bytes : ops.Bytes) → ops.decode (ops.encode bytes) ≡ some bytes)
      → sign_payload private_key body nonce ts ≡ ok signature
      → verify_payload client_pub body nonce ts signature ≡ ok true
  unfolding sign_payload verify_payload
  sign_then_verify private_key client_pub nonce ts body signature pair round_trip h =
      elim (Result-cases (signing_payload body nonce ts)) [
        | inr (e, f) ↦ cc (rw (pair.decoded, pair.loaded, f) at h)
        | inl (text, f) ↦
            let made : ops.encode (ops.sign pair.signing_key text) ≡ signature =
              cc (rw (pair.decoded, pair.loaded, f) at h) in
            rw (sym made) (
              rw
                (
                  pair.decoded_public,
                  pair.loaded_public,
                  round_trip (ops.sign pair.signing_key text),
                )
                (rw (pair.sized_signature text) (rw f (rw (pair.verifies text) refl))))
      ]

-- ===== src/Envelope.antt =====
-- The signed request envelope and its verifier (crates/hom-shared/src/envelope.rs), over the
-- canonical JSON text of a body, SHA-256 and the signature check, which are an interface here.
pub mod Clock
pub mod Payload
pub mod Replay
pub mod Admission
pub mod Keys
pub mod Refusals
use hom_local.Prelude.{
  ℕ, String, Bool, true, false, not, ◌&&◌, ◌||◌, List, [], ◌∷◌, ◌++◌, Option, none, some, str_eq,
  ◌==◌, any_of, Result, ok, err, ◌>>=◌, ◌>>◌, map_err, if◌then◌else◌, codes,
}
use hom_local.Prelude.Int.{ℤ, pos, negsuc, ltb_ℤ}
use hom_local.I64.{sub64, abs64, leb_ℤ}
use hom_local.I64.Decimal.{show_i64, parse_i64}

pub record HomEnvelope : Type 0 where
  pub client_id : String
  pub client_pub : String
  pub ts : ℤ
  pub nonce : String
  pub scope : List String
  pub body_hash : String
  pub signature : String

pub record KnownClient : Type 0 where
  pub client_id : String
  pub client_pub : String
  pub scopes : List String

pub record VerifiedIdentity : Type 0 where
  pub client_id : String
  pub scopes : List String

pub data CryptoError : Type 0 where
  invalid_base64 invalid_key invalid_signature : CryptoError
  canonical_failed : String → CryptoError

pub data EnvelopeError : Type 0 where
  unknown_client signature_invalid nonce_replay clock_skew body_hash_mismatch malformed :
      EnvelopeError
  scope_insufficient : EnvelopeError
  crypto : CryptoError → EnvelopeError
  canonical : String → EnvelopeError

-- `EnvelopeError::code`, with the constants of crates/hom-shared/src/types.rs
unfoldable pub error_code : EnvelopeError → ℤ
error_code unknown_client = negsuc 32000
error_code signature_invalid = negsuc 32001
error_code nonce_replay = negsuc 32002
error_code clock_skew = negsuc 32003
error_code body_hash_mismatch = negsuc 32004
error_code scope_insufficient = negsuc 32009
error_code _ = negsuc 32005

-- What the verifier uses of crates/hom-shared/src/canonical_json.rs and crypto.rs.
pub record PayloadOps : Type 1 where
  pub Body : Type 0
  pub canonical_json : Body → Result String String
  pub sha256_hex : String → String
  pub sign_payload : String → Body → String → ℤ → Result CryptoError String
  pub verify_payload : String → Body → String → ℤ → String → Result CryptoError Bool

-- A nonce key is the text `client_id:nonce:ts`, as its code points.
abbrev pub NonceKey : Type 0
NonceKey = List ℕ

-- `clients` is the map that the list of known clients is collected into, as that list; the clock
-- is an argument of each call.
pub record EnvelopeVerifier : Type 0 where
  pub clients : List KnownClient
  pub seen_nonces : List NonceKey
  pub skew_seconds : ℤ
  pub nonce_ttl_seconds : ℤ

unfoldable pub with_clock : List KnownClient → ℤ → ℤ → EnvelopeVerifier
with_clock clients skew ttl = record {
  clients = clients;
  seen_nonces = [];
  skew_seconds = skew;
  nonce_ttl_seconds = ttl;
}

unfoldable pub new : List KnownClient → EnvelopeVerifier
unfolding with_clock
new clients = with_clock clients (pos 30) (pos 60)

-- The entry of a collected map: the last one with the key.
unfoldable pub find_client : String → List KnownClient → Option KnownClient
find_client id [] = none
find_client id (c ∷ rest) = elim (find_client id rest) [
  | some later ↦ some later
  | none ↦ if str_eq c.client_id id then some c else none
]

abbrev pub is_empty : String → Bool
is_empty s = str_eq s ""

unfoldable pub nonce_key : String → String → ℤ → NonceKey
nonce_key id nonce ts = codes id ++ (b':' ∷ (codes nonce ++ (b':' ∷ show_i64 ts)))

abbrev key_eq : NonceKey → NonceKey → Bool
key_eq [] [] = true
key_eq (a ∷ s) (b ∷ t) = (a == b) && key_eq s t
key_eq _ _ = false

abbrev pub contains_key : NonceKey → List NonceKey → Bool
contains_key k [] = false
contains_key k (j ∷ keys) = key_eq j k || contains_key k keys

-- `rsplit(':').next()`: what follows the last colon, or the whole text.
after_last_colon : List ℕ → List ℕ → List ℕ
after_last_colon best [] = best
after_last_colon best (c ∷ rest) = after_last_colon (if c == b':' then rest else best) rest

still_fresh : ℤ → ℤ → Option ℤ → Bool
still_fresh now ttl none = false
still_fresh now ttl (some ts) = leb_ℤ (sub64 now ts) ttl

-- The test under which `prune_nonces` retains a key.
unfoldable pub retains : ℤ → ℤ → NonceKey → Bool
unfolding still_fresh after_last_colon
retains now ttl key = still_fresh now ttl (parse_i64 (after_last_colon key key))

pub retained : ℤ → ℤ → List NonceKey → List NonceKey
retained now ttl [] = []
retained now ttl (k ∷ keys) =
    let rest = retained now ttl keys in if retains now ttl k then k ∷ rest else rest

unfoldable pub prune_nonces : ℤ → EnvelopeVerifier → EnvelopeVerifier
unfolding retained
prune_nonces now v = record v { seen_nonces = retained now v.nonce_ttl_seconds v.seen_nonces }

-- `(now - ts).abs() > skew_seconds`
unfoldable pub is_skewed : ℤ → ℤ → ℤ → Bool
is_skewed now ts skew = ltb_ℤ skew (abs64 (sub64 now ts))

abbrev pub all_granted : List String → List String → Bool
all_granted granted [] = true
all_granted granted (s ∷ scope) = any_of s granted && all_granted granted scope

abbrev pub has_required : Option String → List String → Bool
has_required none scope = true
has_required (some required) scope = any_of required scope

abbrev pub guard : Bool → EnvelopeError → Result EnvelopeError (Unit {0})
guard true e = ok tt
guard false e = err e

module _ (ops : PayloadOps) where
  -- The checks behind the nonce: body hash, scopes, signature.
  unfoldable pub check_payload :
      ops.Body → HomEnvelope → Option String → KnownClient → Result EnvelopeError VerifiedIdentity
  check_payload body hom required client = do
    body_canonical ← map_err canonical (ops.canonical_json body)
    guard (str_eq (ops.sha256_hex body_canonical) hom.body_hash) body_hash_mismatch
    guard (all_granted client.scopes hom.scope) scope_insufficient
    guard (has_required required hom.scope) scope_insufficient
    valid ←
        map_err crypto (ops.verify_payload client.client_pub body hom.nonce hom.ts hom.signature)
    guard valid signature_invalid
    ok (record { client_id = hom.client_id; scopes = hom.scope })

  -- From the replay test on; the key stays inserted whatever the payload's checks say.
  unfoldable pub admit_nonce :
      ops.Body
      → HomEnvelope
      → Option String
      → KnownClient
      → EnvelopeVerifier
      → EnvelopeVerifier × Result EnvelopeError VerifiedIdentity
  admit_nonce body hom required client v =
      let key = nonce_key hom.client_id hom.nonce hom.ts in
      if contains_key key v.seen_nonces
      then (v, err nonce_replay)
      else (record v { seen_nonces = key ∷ v.seen_nonces }, check_payload body hom required client)

  unfoldable pub verify_client :
      ℤ
      → ops.Body
      → HomEnvelope
      → Option String
      → Option KnownClient
      → EnvelopeVerifier
      → EnvelopeVerifier × Result EnvelopeError VerifiedIdentity
  verify_client now body hom required none v = (v, err unknown_client)
  verify_client now body hom required (some client) v =
      if not (str_eq client.client_pub hom.client_pub)
      then (v, err unknown_client)
      else if is_skewed now hom.ts v.skew_seconds
      then (v, err clock_skew)
      else admit_nonce body hom required client (prune_nonces now v)

  abbrev pub is_malformed : HomEnvelope → Bool
  is_malformed hom =
      is_empty hom.client_id
      || is_empty hom.client_pub
      || is_empty hom.nonce
      || is_empty hom.signature

  unfoldable pub verify_body :
      ℤ
      → ops.Body
      → HomEnvelope
      → Option String
      → EnvelopeVerifier
      → EnvelopeVerifier × Result EnvelopeError VerifiedIdentity
  verify_body now body hom required v =
      if is_malformed hom
      then (v, err malformed)
      else verify_client now body hom required (find_client hom.client_id v.clients) v

  -- `verify_request`, on the `params` and `hom` fields of a request
  unfoldable pub verify_request :
      ℤ
      → ops.Body
      → Option HomEnvelope
      → Option String
      → EnvelopeVerifier
      → EnvelopeVerifier × Result EnvelopeError VerifiedIdentity
  verify_request now params none required v = (v, err malformed)
  verify_request now params (some hom) required v = verify_body now params hom required v

  -- `build_request`: the envelope that it puts into the request.
  unfoldable pub build_envelope :
      ops.Body
      → String
      → String
      → String
      → List String
      → String
      → ℤ
      → Result EnvelopeError HomEnvelope
  build_envelope params client_id client_pub private_key scopes nonce ts = do
    body_canonical ← map_err canonical (ops.canonical_json params)
    signature ← map_err crypto (ops.sign_payload private_key params nonce ts)
    ok (record {
      client_id = client_id;
      client_pub = client_pub;
      ts = ts;
      nonce = nonce;
      scope = scopes;
      body_hash = ops.sha256_hex body_canonical;
      signature = signature;
    })

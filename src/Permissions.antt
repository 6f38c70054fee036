-- ===== src/Permissions.antt =====
-- Permissions (crates/hom-brain/src/services/permissions.rs): the rows of `grant_ledger_entries`,
-- what a request for a grant carries, and how the handlers read their parameters. The rows'
-- JSON form (`grant_row`) and the detail of an error (`data`) are left out.
pub mod Grants
pub mod Handlers
pub mod System
pub mod Confirmed
pub mod Revoked
pub mod Single
pub mod Latest
pub mod Upsert
pub mod Steps
pub mod Check
pub mod Gone
pub mod Returns
pub mod Settings
pub mod Gate
pub mod Narrowing
pub mod Sync
pub mod Profile
pub mod Stored
pub mod Roots
pub mod Failures
pub mod Recorded
use Prim.Native.String.{◌++◌ as append}
use hom_local.Prelude.{
  ℕ, String, Bool, true, false, not, ◌&&◌, ◌||◌, List, [], ◌∷◌, Option, none, some, str_eq, codes,
  ◌==◌, Result, ok, err, ◌>>=◌, map_err, if◌then◌else◌,
}
use hom_local.Prelude.Int.{ℤ, negsuc, ltb_ℤ}
use hom_local.Codes.{ascii_lower, map_codes, same_codes, any_piece, trim}
use hom_local.Json.{Serde, Value, object, end}
use hom_local.Json.Access.{get, as_str, as_bool}

pub record RpcError : Type 0 where
  pub code : ℤ
  pub message : String

abbrev pub rpc_err : ℤ → String → RpcError
rpc_err code message = record { code = code; message = message }

-- -32602
abbrev pub invalid_params : ℤ
invalid_params = negsuc 32601

-- -32603
abbrev pub internal_error : ℤ
internal_error = negsuc 32602

-- `ERR_PERMISSION_DENIED`, -32080
unfoldable pub permission_error : String → RpcError
permission_error message = rpc_err (negsuc 32079) message

-- What the service uses of serde_json and of the ledger (`append_ledger_tx`, which gives the id of
-- the event).
pub record GrantOps : Type 1 where
  pub serde : Serde
  pub as_i64 : serde.Number → Option ℤ
  pub of_i64 : ℤ → serde.Number
  pub Ledger : Type 0
  pub append_ledger :
      String
      → String
      → Option String
      → Value serde.Number
      → ℤ
      → Ledger
      → Result String (Ledger × Option String)

-- A row of `grant_ledger_entries`
pub record GrantRow : Type 0 where
  pub id : String
  pub grant_kind : String
  pub subject_id : String
  pub grantee_id : String
  pub capability_id : Option String
  pub scope_json : String
  pub state : String
  pub issuer : String
  pub reason : Option String
  pub expires_at_s : Option ℤ
  pub revoked_at_s : Option ℤ
  pub ledger_event_id : Option String
  pub created_at_s : ℤ
  pub updated_at_s : ℤ

pub record GrantInput (N : Type 0) : Type 0 where
  pub grant_kind : String
  pub subject_id : String
  pub grantee_id : String
  pub capability_id : Option String
  pub scope : Value N
  pub issuer : String
  pub reason : String
  pub expires_at_s : Option ℤ

-- Parameters

unfoldable pub is_blank : String → Bool
unfolding trim
is_blank s = elim (trim (codes s)) [ [] ↦ true | c ∷ rest ↦ false ]

abbrev or_else {ℓ} : {A : Type ℓ} → Option A → Option A → Option A
or_else (some a) other = some a
or_else none other = other

abbrev pub option_or {ℓ} : {A : Type ℓ} → A → Option A → A
option_or default (some a) = a
option_or default none = default

-- `and_then`
abbrev pub chain {ℓ κ} : {A : Type ℓ} {B : Type κ} → Option A → (A → Option B) → Option B
chain none f = none
chain (some a) f = f a

abbrev pub ok_or {ℓ} : {A : Type ℓ} → RpcError → Option A → Result RpcError A
ok_or error none = err error
ok_or error (some a) = ok a

abbrev not_blank : String → Option String
not_blank s = if is_blank s then none else some s

module _ {N : Type 0} where
  abbrev pub first : Value N → List String → Option (Value N)
  first value [] = none
  first value (key ∷ keys) = or_else (get value key) (first value keys)

  unfoldable pub string_field : Value N → List String → Option String
  unfolding is_blank
  string_field params keys = chain (chain (first params keys) as_str) not_blank

  unfoldable pub confirmation_present : Value N → Bool
  unfolding is_blank
  confirmation_present params =
      option_or false (
        chain
          (first params
            ("confirm_broadening" ∷ "confirmBroadening" ∷ "confirm_purge" ∷ "confirmPurge" ∷ []))
          as_bool)
      || elim (chain (get params "confirmation") as_str) [
        | none ↦ false
        | some value ↦ not (is_blank value)
      ]

-- The kind's aliases, after dashes, spaces around it and capitals are taken away
unfoldable pub normalize_grant_kind : String → Result RpcError String
unfolding trim
normalize_grant_kind kind =
    let normalized =
      ascii_lower (map_codes (λ c. if c == b'-' then b'_' else c) (trim (codes kind))) in
    let is_any = any_piece (λ name. same_codes normalized (codes name)) in
    if is_any ("app" ∷ "apps" ∷ "app_automation" ∷ "automation" ∷ [])
    then ok "app_automation"
    else if is_any ("file" ∷ "files" ∷ "filesystem" ∷ "local_filesystem" ∷ "local_root" ∷ [])
    then ok "filesystem"
    else if is_any ("browser" ∷ "web_browser" ∷ [])
    then ok "browser"
    else if is_any ("google_drive" ∷ "cloud_drive" ∷ "cloud" ∷ [])
    then ok "cloud_drive"
    else if is_any ("network" ∷ [])
    then ok "network"
    else if is_any ("provider_key" ∷ "provider_keys" ∷ "provider" ∷ [])
    then ok "provider_key"
    else if is_any ("shell" ∷ [])
    then ok "shell"
    else err (rpc_err invalid_params (append "unknown_grant_kind: " kind))

abbrev pub system_grantee : String
system_grantee = "hom-local"

abbrev number_of : {N : Type 0} → (N → Option ℤ) → Value N → Option ℤ
number_of as_i64 (Value.number n) = as_i64 n
number_of as_i64 _ = none

unfoldable pub grant_input :
    (ops : GrantOps) → Value ops.serde.Number → Result RpcError (GrantInput ops.serde.Number)
unfolding string_field normalize_grant_kind
grant_input ops params = do
  kind ←
      ok_or (rpc_err invalid_params "grant_kind_required")
        (string_field params ("grant_kind" ∷ "grantKind" ∷ "kind" ∷ []))
  grant_kind ← normalize_grant_kind kind
  subject_id ←
      ok_or (rpc_err invalid_params "grant_subject_required")
        (string_field params ("subject_id" ∷ "subjectId" ∷ "subject" ∷ []))
  ok (record {
    grant_kind = grant_kind;
    subject_id = subject_id;
    grantee_id =
        option_or system_grantee
          (string_field params ("grantee_id" ∷ "granteeId" ∷ "grantee" ∷ []));
    capability_id = string_field params ("capability_id" ∷ "capabilityId" ∷ "capability" ∷ []);
    scope = option_or (object end) (first params ("scope" ∷ "scope_json" ∷ "scopeJson" ∷ []));
    issuer = option_or "hom-local.user" (string_field params ("issuer" ∷ []));
    reason = option_or "" (string_field params ("reason" ∷ []));
    expires_at_s = chain (first params ("expires_at_s" ∷ "expiresAtS" ∷ [])) (number_of ops.as_i64);
  })

-- ===== src/Permissions/Handlers.antt =====
-- The handlers of grants (crates/hom-brain/src/services/permissions.rs): creating, refreshing,
-- revoking and checking, with the ledger event of each. The clock and the id of
-- `Uuid::new_v4` are arguments.
use Prim.Native.String.{◌++◌ as append}
use hom_local.Prelude.{
  String, Bool, true, false, not, ◌&&◌, List, [], ◌∷◌, Option, none, some, str_eq, Result, ok, err,
  ◌>>=◌, map_err, if◌then◌else◌,
}
use hom_local.Prelude.Int.{ℤ}
use hom_local.Codes.{any_piece}
use hom_local.Json.{Value, null, string, number, object, end, field, canonical_json}
use hom_local.Permissions.{
  RpcError, rpc_err, invalid_params, internal_error, permission_error, GrantOps, GrantRow,
  GrantInput, string_field, confirmation_present, is_blank, grant_input, ok_or,
}
use hom_local.Permissions.Grants.{
  GrantStore, GrantKey, key_of, has_key, is_active, is_unexpired, latest, update,
  grant_row_by_id_tx, supersede, upsert, active_grant_ids_tx, set_revoked, grant_filter,
  require_active_grant,
}

abbrev pub text_or_null : {N : Type 0} → Option String → Value N
text_or_null none = null
text_or_null (some s) = string s

-- An error that a step of the transaction gives, with the step's name
abbrev pub at_step : {A : Type 0} → String → Result String A → Result RpcError A
at_step step r = map_err (λ e. rpc_err internal_error (append step e)) r

module _ (ops : GrantOps) where
  abbrev pub Input : Type 0
  Input = GrantInput ops.serde.Number

  abbrev pub Store : Type 0
  Store = GrantStore ops.Ledger

  abbrev pub Params : Type 0
  Params = Value ops.serde.Number

  abbrev seconds_or_null : Option ℤ → Params
  seconds_or_null none = null
  seconds_or_null (some t) = number (ops.of_i64 t)

  unfoldable pub created_payload : String → Input → Params
  created_payload id grant = object (
      field "grant_id" (string id) (
        field "grant_kind" (string grant.grant_kind) (
          field "subject_id" (string grant.subject_id) (
            field "grantee_id" (string grant.grantee_id) (
              field "capability_id" (text_or_null grant.capability_id) (
                field "scope" grant.scope (
                  field "issuer" (string grant.issuer) (
                    field "reason" (string grant.reason)
                      (field "expires_at_s" (seconds_or_null grant.expires_at_s) end)))))))))

  unfoldable pub new_grant : ℤ → String → String → Option String → Input → GrantRow
  new_grant now id scope_json event grant = record {
    id = id;
    grant_kind = grant.grant_kind;
    subject_id = grant.subject_id;
    grantee_id = grant.grantee_id;
    capability_id = grant.capability_id;
    scope_json = scope_json;
    state = "active";
    issuer = grant.issuer;
    reason = some grant.reason;
    expires_at_s = grant.expires_at_s;
    revoked_at_s = none;
    ledger_event_id = event;
    created_at_s = now;
    updated_at_s = now;
  }

  abbrev canonical_scope : Input → Result RpcError String
  canonical_scope grant =
      at_step "grant_scope_canonicalize: " (canonical_json ops.serde grant.scope)

  -- An active grant of this key and scope, whether expired or not
  unfoldable pub is_existing : GrantKey → String → GrantRow → Bool
  unfolding has_key
  is_existing key scope_json r = has_key key r && (str_eq r.scope_json scope_json && is_active r)

  -- The id of the grant to refresh, or the new id
  unfoldable pub chosen_id : String → GrantKey → String → List GrantRow → String
  unfolding latest is_existing
  chosen_id id key scope_json rows = elim (latest (is_existing key scope_json) rows) [
    | some existing ↦ existing.id
    | none ↦ id
  ]

  unfoldable pub create_or_refresh_grant :
      ℤ → String → Input → String → Store → Result RpcError (GrantRow × Store)
  unfolding created_payload new_grant supersede upsert chosen_id grant_row_by_id_tx
  create_or_refresh_grant now id grant actor s = do
    scope_json ← canonical_scope grant
    let left = update (supersede now (key_of grant) scope_json) s.grants in
        let grant_id = chosen_id id (key_of grant) scope_json left in
        do
          appended ← at_step "grant_ledger_append: " (
              ops.append_ledger "permission.grant.created" actor (some grant.subject_id)
                (created_payload grant_id grant) now s.ledger)
          let rows = upsert (new_grant now grant_id scope_json appended.1 grant) left in
              do
                row ← grant_row_by_id_tx grant_id rows
                ok (row, record { grants = rows; ledger = appended.0 })

  -- An active and unexpired grant of this key and scope
  unfoldable pub is_current : ℤ → GrantKey → String → GrantRow → Bool
  unfolding has_key is_unexpired
  is_current now key scope_json r =
      has_key key r && (str_eq r.scope_json scope_json && (is_active r && is_unexpired now r))

  unfoldable pub active_matching_grant : ℤ → Input → Store → Result RpcError (Option GrantRow)
  unfolding is_current latest
  active_matching_grant now grant s = do
    scope_json ← canonical_scope grant
    ok (latest (is_current now (key_of grant) scope_json) s.grants)

  unfoldable pub grant_is_broadening : ℤ → Input → Store → Result RpcError Bool
  unfolding is_current
  grant_is_broadening now grant s = do
    scope_json ← canonical_scope grant
    ok (not (any_piece (is_current now (key_of grant) scope_json) s.grants))

  unfoldable pub grants_create : ℤ → String → Params → Store → Result RpcError (GrantRow × Store)
  unfolding grant_input grant_is_broadening create_or_refresh_grant confirmation_present is_blank
      permission_error
  grants_create now id params s = do
    grant ← grant_input ops params
    if is_blank grant.reason then err (rpc_err invalid_params "grant_reason_required") else do
      broadening ← grant_is_broadening now grant s
      if broadening && not (confirmation_present params)
          then err (permission_error "permission_broadening_confirmation_required")
          else create_or_refresh_grant now id grant "permissions.grants.create" s

  unfoldable pub grants_check : ℤ → Params → Store → Result RpcError GrantRow
  unfolding grant_input require_active_grant
  grants_check now params s = do
    grant ← grant_input ops params
    require_active_grant now (key_of grant) "permission_grant_required" s.grants

  unfoldable pub revoked_payload : GrantRow → String → String → Params
  revoked_payload before id reason = object (
      field "grant_id" (string id) (
        field "grant_kind" (string before.grant_kind) (
          field "subject_id" (string before.subject_id) (
            field "grantee_id" (string before.grantee_id) (
              field "capability_id" (text_or_null before.capability_id)
                (field "reason" (string reason) end))))))

  -- The loop over the ids, with the rows as they are after each turn
  unfoldable pub revoke_each :
      ℤ → String → String → List String → Store → Result RpcError (List GrantRow × Store)
  unfolding revoked_payload grant_row_by_id_tx set_revoked
  revoke_each now reason actor [] s = ok ([], s)
  revoke_each now reason actor (id ∷ ids) s = do
    before ← grant_row_by_id_tx id s.grants
    appended ← at_step "grant_revoke_ledger_append: " (
        ops.append_ledger "permission.grant.revoked" actor (some before.subject_id)
          (revoked_payload before id reason) now s.ledger)
    let rows = update (set_revoked now reason appended.1 id) s.grants in
        do
          after ← grant_row_by_id_tx id rows
          rest ← revoke_each now reason actor ids (record { grants = rows; ledger = appended.0 })
          ok (after ∷ rest.0, rest.1)

  unfoldable pub revoke_grants :
      ℤ → Params → String → String → Store → Result RpcError (List GrantRow × Store)
  unfolding grant_filter active_grant_ids_tx revoke_each
  revoke_grants now params reason actor s = do
    filter ← grant_filter params
    revoke_each now reason actor (active_grant_ids_tx filter s.grants) s

  abbrev is_nothing : List GrantRow → Bool
  is_nothing [] = true
  is_nothing (r ∷ rows) = false

  unfoldable pub grants_revoke : ℤ → Params → Store → Result RpcError (List GrantRow × Store)
  unfolding revoke_grants string_field
  grants_revoke now params s = do
    reason ←
        ok_or (rpc_err invalid_params "grant_revoke_reason_required")
          (string_field params ("reason" ∷ []))
    revoked ← revoke_grants now params reason "permissions.grants.revoke" s
    if is_nothing revoked.0
        then err (rpc_err invalid_params "grant_not_found_or_inactive")
        else ok revoked

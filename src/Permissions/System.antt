-- ===== src/Permissions/System.antt =====
-- Grants that the system gives itself (crates/hom-brain/src/services/permissions.rs,
-- `ensure_system_grant`, `revoke_system_grant` and `reconcile_boolean_grant`).
use hom_local.Prelude.{
  String, Bool, not, List, [], none, some, str_eq, Result, ok, err, ◌>>=◌, if◌then◌else◌,
}
use hom_local.Prelude.Int.{ℤ}
use hom_local.Json.{string, object, end, field}
use hom_local.Permissions.{RpcError, GrantOps, GrantRow, system_grantee}
use hom_local.Permissions.Grants.{grant_history_exists}
use hom_local.Permissions.Handlers.{
  Input, Store, Params, create_or_refresh_grant, active_matching_grant, revoke_grants,
}

module _ (ops : GrantOps) where
  unfoldable pub system_input : String → String → String → Params ops → String → Input ops
  system_input kind subject capability scope reason = record {
    grant_kind = kind;
    subject_id = subject;
    grantee_id = system_grantee;
    capability_id = some capability;
    scope = scope;
    issuer = "permissions.set_profile";
    reason = reason;
    expires_at_s = none;
  }

  unfoldable pub ensure_system_grant :
      ℤ
      → String
      → String
      → String
      → String
      → Params ops
      → String
      → Store ops
      → Result RpcError (GrantRow × Store ops)
  unfolding system_input active_matching_grant create_or_refresh_grant
  ensure_system_grant now id kind subject capability scope reason s = do
    matching ← active_matching_grant ops now (system_input kind subject capability scope reason) s
    elim matching [
      | some row ↦ ok (row, s)
      | none ↦
          create_or_refresh_grant ops now id (system_input kind subject capability scope reason)
            "permissions.set_profile" s
    ]

  unfoldable pub revoke_system_grant :
      ℤ
      → String
      → String
      → String
      → String
      → Store ops
      → Result RpcError (List GrantRow × Store ops)
  unfolding revoke_grants
  revoke_system_grant now kind subject capability reason s =
      revoke_grants ops now
        (object (
          field "grant_kind" (string kind) (
            field "subject_id" (string subject) (
              field "grantee_id" (string system_grantee)
                (field "capability_id" (string capability) end)))))
        reason "permissions.revoke_root" s

  unfoldable pub revoke_system_grant_if_present :
      ℤ
      → String
      → String
      → String
      → String
      → Store ops
      → Result RpcError (List GrantRow × Store ops)
  unfolding revoke_system_grant
  revoke_system_grant_if_present now kind subject capability reason s =
      elim (revoke_system_grant now kind subject capability reason s) [
        | ok revoked ↦ ok revoked
        | err error ↦
            if str_eq error.message "grant_not_found_or_inactive" then ok ([], s) else err error
      ]

  unfoldable pub reconcile_boolean_grant :
      ℤ
      → String
      → Bool
      → String
      → String
      → String
      → Params ops
      → String
      → String
      → Store ops
      → Result RpcError (Store ops)
  unfolding grant_history_exists ensure_system_grant revoke_system_grant_if_present
  reconcile_boolean_grant now id enabled kind subject capability scope on_reason off_reason s =
      if enabled
      then (if not (grant_history_exists kind subject capability s.grants)
          then (do
            done ← ensure_system_grant now id kind subject capability scope on_reason s
            ok done.1)
          else ok s)
      else do
        done ← revoke_system_grant_if_present now kind subject capability off_reason s
        ok done.1

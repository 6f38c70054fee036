-- ===== src/Permissions/Gate.antt =====
-- The validation of permission settings and the gates in front of tools
-- (crates/hom-brain/src/services/permissions.rs, `validate_permission_settings` and the
-- `enforce_` functions). The settings of a request are its map's entries in their order.
use Prim.Native.String.{◌++◌ as append}
use hom_local.Prelude.{
  String, Bool, true, false, not, ◌&&◌, List, [], ◌∷◌, ◌++◌, Option, none, some, str_eq, codes,
  Result, ok, err, ◌>>=◌, ◌>>◌, if◌then◌else◌,
}
use hom_local.Prelude.Int.{ℤ, ltb_ℤ}
use hom_local.Codes.{any_piece, starts_with}
use hom_local.Json.{Value}
use hom_local.Json.Access.{get, as_str}
use hom_local.Permissions.{
  RpcError, rpc_err, invalid_params, permission_error, GrantRow, is_blank, chain, ok_or,
  confirmation_present,
}
use hom_local.Permissions.Grants.{has_filesystem_grant}
use hom_local.Permissions.Settings.{
  PermissionState, profile_rank, validate_profile, bool_value, string_array_value,
  validate_absolute_paths, has_new,
}

abbrev pub none_of : List String → Bool
none_of [] = true
none_of (key ∷ keys) = false

module _ (is_absolute : String → Bool) {N : Type 0} where
  -- A switch broadens when it is turned on and was off.
  abbrev pub switch_broadens : String → Value N → Bool → Result RpcError Bool
  switch_broadens key value current = do next ← bool_value value key; ok (next && not current)

  abbrev pub paths_broaden : String → Value N → List String → Result RpcError Bool
  paths_broaden key value current = do
    paths ← string_array_value value key
    validate_absolute_paths is_absolute key paths
    ok (has_new paths current)

  abbrev pub profile_broadens : Value N → PermissionState → Result RpcError Bool
  profile_broadens value current = do
    profile ← ok_or (rpc_err invalid_params "permissions.profile_must_be_string") (as_str value)
    validate_profile profile
    ok (ltb_ℤ (profile_rank current.profile) (profile_rank profile))

  abbrev pub drives_broaden : String → Value N → PermissionState → Result RpcError Bool
  drives_broaden key value current = do
    grants ← string_array_value value key
    if any_piece is_blank grants
        then err (rpc_err invalid_params "permissions.google_drive_grants_invalid")
        else ok (has_new grants current.google_drive_grants)

  -- Whether one setting broadens the state, or why it is refused
  unfoldable pub setting_broadens : PermissionState → String → Value N → Result RpcError Bool
  unfolding bool_value string_array_value validate_absolute_paths profile_rank validate_profile
      is_blank
  setting_broadens current key value =
      if str_eq key "permissions.profile"
      then profile_broadens value current
      else if str_eq key "permissions.network_enabled"
      then switch_broadens key value current.network_enabled
      else if str_eq key "permissions.filesystem_enabled"
      then switch_broadens key value current.filesystem_enabled
      else if str_eq key "permissions.browser_enabled"
      then switch_broadens key value current.browser_enabled
      else if str_eq key "permissions.automation_enabled"
      then switch_broadens key value current.automation_enabled
      else if str_eq key "permissions.shell_access"
      then switch_broadens key value current.shell_access
      else if str_eq key "permissions.provider_key_access"
      then switch_broadens key value current.provider_key_access
      else if str_eq key "permissions.local_roots"
      then paths_broaden key value current.local_roots
      else if str_eq key "permissions.google_drive_grants"
      then drives_broaden key value current
      else if str_eq key "permissions.local_filesystem_grants"
      then paths_broaden key value current.local_filesystem_grants
      else err (rpc_err invalid_params (append "unknown_permission_setting: " key))

  -- The loop, with the keys that broaden so far
  unfoldable pub collect_broadening :
      PermissionState → List (String × Value N) → List String → Result RpcError (List String)
  unfolding setting_broadens
  collect_broadening current [] broadening = ok broadening
  collect_broadening current (setting ∷ settings) broadening = do
    broadens ← setting_broadens current setting.0 setting.1
    collect_broadening current settings
        (if broadens then broadening ++ (setting.0 ∷ []) else broadening)

  unfoldable pub validate_permission_settings :
      PermissionState → List (String × Value N) → Bool → Result RpcError (Unit {0})
  unfolding collect_broadening permission_error
  validate_permission_settings current settings confirmed = do
    broadening ← collect_broadening current settings []
    if not (none_of broadening) && not confirmed
        then err (permission_error "permission_broadening_confirmation_required")
        else ok tt

-- Gates

abbrev pub refused_unless : Bool → String → Result RpcError (Unit {0})
refused_unless holds message = if not holds then err (permission_error message) else ok tt

abbrev all_permission_keys : List String → Bool
all_permission_keys [] = true
all_permission_keys (key ∷ keys) =
    starts_with (codes key) (codes "permissions.") && all_permission_keys keys

unfoldable pub enforce_settings_write : PermissionState → List String → Result RpcError (Unit {0})
unfolding profile_rank permission_error
enforce_settings_write permissions keys =
    if all_permission_keys keys
    then ok tt
    else refused_unless (not (ltb_ℤ (profile_rank permissions.profile) (profile_rank "workspace")))
        "settings_write_requires_workspace_or_full_access"

unfoldable pub enforce_app_approval : PermissionState → Result RpcError (Unit {0})
unfolding permission_error
enforce_app_approval permissions =
    refused_unless (str_eq permissions.profile "full_access") "app_approval_requires_full_access"

unfoldable pub enforce_automation : PermissionState → Result RpcError (Unit {0})
unfolding permission_error
enforce_automation permissions =
    refused_unless permissions.automation_enabled "automation_disabled_by_permission_policy"

unfoldable pub enforce_purge : {N : Type 0} → PermissionState → Value N → Result RpcError (Unit {0})
unfolding permission_error confirmation_present
enforce_purge permissions params = do
  refused_unless (str_eq permissions.profile "full_access") "brain_purge_requires_full_access"
  refused_unless (confirmation_present params) "brain_purge_confirmation_required"

-- The switch of a tool's domain; a domain that is not known is denied.
unfoldable pub domain_gate : PermissionState → String → Result RpcError (Unit {0})
unfolding profile_rank permission_error
domain_gate permissions domain =
    if str_eq domain "brain"
    then refused_unless (not (ltb_ℤ (profile_rank permissions.profile) (profile_rank "restricted")))
        "tool_gate_brain_denied"
    else if str_eq domain "shell"
    then refused_unless permissions.shell_access "tool_gate_shell_denied"
    else if str_eq domain "filesystem"
    then refused_unless permissions.filesystem_enabled "tool_gate_filesystem_denied"
    else if str_eq domain "network"
    then refused_unless permissions.network_enabled "tool_gate_network_denied"
    else if str_eq domain "browser"
    then refused_unless permissions.browser_enabled "tool_gate_browser_denied"
    else if str_eq domain "app_connector"
    then refused_unless permissions.automation_enabled "tool_gate_app_connector_denied"
    else if str_eq domain "provider_key"
    then refused_unless permissions.provider_key_access "tool_gate_provider_key_denied"
    else err (permission_error "tool_gate_unknown_denied")

unfoldable pub enforce_tool_gate :
    {N : Type 0}
    → ℤ
    → PermissionState
    → List GrantRow
    → String
    → Option (Value N)
    → Result RpcError (Unit {0})
unfolding domain_gate has_filesystem_grant permission_error
enforce_tool_gate now permissions grants domain context = do
  domain_gate permissions domain
  elim (chain (chain context (λ c. get c "path")) as_str) [
    | none ↦ ok tt
    | some path ↦
        refused_unless (has_filesystem_grant now path grants) "tool_gate_filesystem_path_denied"
  ]

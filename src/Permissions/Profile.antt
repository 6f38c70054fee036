-- ===== src/Permissions/Profile.antt =====
-- The handlers that change the permission settings (crates/hom-brain/src/services/permissions.rs,
-- `set_profile`, `grant_root` and `revoke_root`): settings first, grants after. `to_text` is
-- serde_json's `to_string` of a value, which does not fail; a map's entries are in the order of
-- their keys.
use hom_local.Prelude.{
  String, List, [], ◌∷◌, ◌++◌, none, some, str_eq, any_of, Result, ok, err, ◌>>=◌, ◌>>◌,
  if◌then◌else◌,
}
use hom_local.Prelude.Int.{ℤ}
use hom_local.Json.{Value, Items, string, array, nil, cons}
use hom_local.Json.Order.{text_le}
use hom_local.Permissions.{
  RpcError, rpc_err, invalid_params, GrantOps, GrantRow, string_field, confirmation_present, first,
  ok_or,
}
use hom_local.Permissions.Handlers.{Store, Params}
use hom_local.Permissions.Settings.{
  SettingOps, PermissionState, load_state, validate_absolute_paths, sort_texts,
}
use hom_local.Permissions.Gate.{validate_permission_settings}
use hom_local.Permissions.Sync.{Progress, scope_of, ensure, revoke_if_present, sync_setting_grants}

pub record PermissionOps : Type 1 where
  pub grants : GrantOps
  pub settings : SettingOps
  pub to_text : Params grants → String
  pub uuid : List GrantRow → String

pub record Brain (L : Type 0) : Type 0 where
  pub settings : List (String × String)
  pub store : L

-- `INSERT … ON CONFLICT(key) DO UPDATE`
abbrev pub put_setting : String → String → List (String × String) → List (String × String)
put_setting key text [] = (key, text) ∷ []
put_setting key text ((k, v) ∷ settings) =
    let rest = put_setting key text settings in
    if str_eq k key then (k, text) ∷ settings else (k, v) ∷ rest

-- `Map::insert`
abbrev insert_update :
    {N : Type 0} → String → Value N → List (String × Value N) → List (String × Value N)
insert_update key value [] = (key, value) ∷ []
insert_update key value ((k, v) ∷ updates) =
    let rest = insert_update key value updates in
    if str_eq k key
    then (k, value) ∷ updates
    else if text_le key k
    then (key, value) ∷ (k, v) ∷ updates
    else (k, v) ∷ rest

-- An update from the first of its aliases that the parameters have
abbrev update_from :
    {N : Type 0}
    → Value N
    → String
    → List String
    → List (String × Value N)
    → List (String × Value N)
update_from params key aliases updates = elim (first params aliases) [
  | none ↦ updates
  | some value ↦ insert_update key value updates
]

unfoldable pub profile_updates : {N : Type 0} → Value N → String → List (String × Value N)
profile_updates params profile =
    update_from params "permissions.local_filesystem_grants"
      ("local_filesystem_grants" ∷ "localFilesystemGrants" ∷ [])
      (update_from params "permissions.google_drive_grants"
        ("google_drive_grants" ∷ "googleDriveGrants" ∷ [])
        (update_from params "permissions.local_roots" ("local_roots" ∷ "localRoots" ∷ []) (
          update_from params "permissions.provider_key_access"
            ("provider_key_access" ∷ "providerKeyAccess" ∷ [])
            (update_from params "permissions.shell_access" ("shell_access" ∷ "shellAccess" ∷ []) (
              update_from params "permissions.automation_enabled"
                ("automation_enabled" ∷ "automationEnabled" ∷ [])
                (update_from params "permissions.browser_enabled"
                  ("browser_enabled" ∷ "browserEnabled" ∷ [])
                  (update_from params "permissions.filesystem_enabled"
                    ("filesystem_enabled" ∷ "filesystemEnabled" ∷ [])
                    (update_from params "permissions.network_enabled"
                      ("network_enabled" ∷ "networkEnabled" ∷ [])
                      (("permissions.profile", string profile) ∷ [])))))))))

abbrev pub texts_value : {N : Type 0} → List String → Items N
texts_value [] = nil
texts_value (t ∷ texts) = cons (string t) (texts_value texts)

-- `retain(|existing| existing != path)`
abbrev pub without : String → List String → List String
without path [] = []
without path (root ∷ roots) =
    let rest = without path roots in if str_eq root path then rest else root ∷ rest

module _ (ops : PermissionOps) where
  abbrev pub State : Type 0
  State = Brain (Store ops.grants)

  abbrev pub Answer : Type 0
  Answer = State × Result RpcError PermissionState

  unfoldable pub persist_settings :
      List (String × Params ops.grants) → List (String × String) → List (String × String)
  persist_settings [] settings = settings
  persist_settings ((key, value) ∷ updates) settings =
      persist_settings updates (put_setting key (ops.to_text value) settings)

  -- The handler's last step, once the grants are written
  abbrev pub answer : List (String × String) → Progress (Store ops.grants) → Answer
  answer settings (store, ok u) =
      (record { settings = settings; store = store }, load_state ops.settings settings)
  answer settings (store, err e) = (record { settings = settings; store = store }, err e)

  abbrev checked_updates :
      Params ops.grants → State → Result RpcError (List (String × Params ops.grants))
  checked_updates params s = do
    profile ←
        ok_or (rpc_err invalid_params "profile_required") (string_field params ("profile" ∷ []))
    current ← load_state ops.settings s.settings
    validate_permission_settings ops.settings.is_absolute current (profile_updates params profile)
        (confirmation_present params)
    ok (profile_updates params profile)

  unfoldable pub set_profile : ℤ → Params ops.grants → State → Answer
  unfolding string_field confirmation_present load_state validate_permission_settings
      profile_updates persist_settings sync_setting_grants
  set_profile now params s = elim (checked_updates params s) [
    | err e ↦ (s, err e)
    | ok updates ↦
        answer (persist_settings updates s.settings)
          (sync_setting_grants ops.grants ops.uuid now updates s.store)
  ]

  abbrev pub roots_setting : List String → List (String × Params ops.grants)
  roots_setting roots = ("permissions.local_roots", array (texts_value roots)) ∷ []

  -- The path of a request, and the roots that are to be stored
  unfoldable pub granted_roots : Params ops.grants → State → Result RpcError (String × List String)
  unfolding string_field confirmation_present load_state validate_permission_settings
      validate_absolute_paths
  granted_roots params s = do
    path ←
        ok_or (rpc_err invalid_params "root_path_required")
          (string_field params ("path" ∷ "root" ∷ []))
    validate_absolute_paths ops.settings.is_absolute "root_path" (path ∷ [])
    current ← load_state ops.settings s.settings
    validate_permission_settings ops.settings.is_absolute current (roots_setting (path ∷ []))
        (confirmation_present params)
    ok (
      path,
      if any_of path current.local_roots
          then current.local_roots
          else sort_texts (current.local_roots ++ (path ∷ [])),
    )

  unfoldable pub grant_root : ℤ → Params ops.grants → State → Answer
  unfolding granted_roots load_state persist_settings ensure
  grant_root now params s = elim (granted_roots params s) [
    | err e ↦ (s, err e)
    | ok (path, roots) ↦ answer (persist_settings (roots_setting roots) s.settings) (
        ensure ops.grants ops.uuid now "filesystem" path "filesystem:root"
          (scope_of ops.grants ops.uuid now "root" (string path) "permissions.grant_root")
          "local root granted" s.store)
  ]

  unfoldable pub left_roots : Params ops.grants → State → Result RpcError (String × List String)
  unfolding string_field load_state
  left_roots params s = do
    path ←
        ok_or (rpc_err invalid_params "root_path_required")
          (string_field params ("path" ∷ "root" ∷ []))
    current ← load_state ops.settings s.settings
    ok (path, without path current.local_roots)

  unfoldable pub revoke_root : ℤ → Params ops.grants → State → Answer
  unfolding left_roots load_state persist_settings revoke_if_present
  revoke_root now params s = elim (left_roots params s) [
    | err e ↦ (s, err e)
    | ok (path, roots) ↦ answer (persist_settings (roots_setting roots) s.settings) (
        revoke_if_present ops.grants ops.uuid now "filesystem" path "filesystem:root"
          "local root revoked" s.store)
  ]

-- ===== src/Permissions/Sync.antt =====
-- Grants that follow the settings (crates/hom-brain/src/services/permissions.rs,
-- `sync_setting_grants` and `reconcile_system_grants`). Each grant is written in its own transaction,
-- so that an error leaves what was done before it: the store goes along with the result. The id
-- that `Uuid::new_v4` gives is a function of the table that it is for.
use hom_local.Prelude.{
  String, Bool, true, false, not, List, [], ◌∷◌, Option, none, some, str_eq, Result, ok, err,
  if◌then◌else◌,
}
use hom_local.Prelude.Int.{ℤ}
use hom_local.Json.{Value, bool, string, object, end, field}
use hom_local.Json.Access.{as_bool}
use hom_local.Permissions.{RpcError, GrantOps, GrantRow, chain}
use hom_local.Permissions.Grants.{grant_history_exists}
use hom_local.Permissions.Handlers.{Store, Params}
use hom_local.Permissions.System.{
  ensure_system_grant, revoke_system_grant_if_present, reconcile_boolean_grant,
}
use hom_local.Permissions.Settings.{PermissionState, string_array_value}

-- A store and how the work on it went
abbrev pub Progress : Type 0 → Type 0
Progress S = S × Result RpcError (Unit {0})

-- `?`
abbrev pub then_on : {S : Type 0} → Progress S → (S → Progress S) → Progress S
then_on (s, ok u) next = next s
then_on (s, err e) next = (s, err e)

-- What a transaction on a store gives: on an error the store is as it was.
abbrev pub committed : {S A : Type 0} → S → Result RpcError (A × S) → Progress S
committed s (ok (a, t)) = (t, ok tt)
committed s (err e) = (s, err e)

abbrev pub committed_store : {S : Type 0} → S → Result RpcError S → Progress S
committed_store s (ok t) = (t, ok tt)
committed_store s (err e) = (s, err e)

abbrev pub find_setting : {N : Type 0} → List (String × Value N) → String → Option (Value N)
find_setting [] key = none
find_setting ((k, v) ∷ settings) key =
    let later = find_setting settings key in if str_eq k key then some v else later

module _ (ops : GrantOps) (uuid : List GrantRow → String) (now : ℤ) where
  abbrev pub scope_of : String → Params ops → String → Params ops
  scope_of name value source = object (field name value (field "source" (string source) end))

  unfoldable pub ensure :
      String → String → String → Params ops → String → Store ops → Progress (Store ops)
  unfolding ensure_system_grant
  ensure kind subject capability scope reason s =
      committed s
        (ensure_system_grant ops now (uuid s.grants) kind subject capability scope reason s)

  unfoldable pub revoke_if_present :
      String → String → String → String → Store ops → Progress (Store ops)
  unfolding revoke_system_grant_if_present
  revoke_if_present kind subject capability reason s =
      committed s (revoke_system_grant_if_present ops now kind subject capability reason s)

  -- A switch among the updates: turned on, turned off, or not there
  unfoldable pub sync_switch :
      Option (Params ops)
      → String
      → String
      → String
      → Params ops
      → String
      → String
      → Store ops
      → Progress (Store ops)
  unfolding ensure revoke_if_present
  sync_switch update kind subject capability scope on_reason off_reason s =
      elim (chain update as_bool) [
        | some true ↦ ensure kind subject capability scope on_reason s
        | some false ↦ revoke_if_present kind subject capability off_reason s
        | none ↦ (s, ok tt)
      ]

  unfoldable pub ensure_each :
      String → String → String → String → String → List String → Store ops → Progress (Store ops)
  unfolding ensure
  ensure_each kind capability name source reason [] s = (s, ok tt)
  ensure_each kind capability name source reason (subject ∷ subjects) s =
      then_on (ensure kind subject capability (scope_of name (string subject) source) reason s)
        (ensure_each kind capability name source reason subjects)

  unfoldable pub sync_list :
      Option (Params ops)
      → String
      → String
      → String
      → String
      → String
      → Store ops
      → Progress (Store ops)
  unfolding ensure_each string_array_value
  sync_list none key kind capability name reason s = (s, ok tt)
  sync_list (some value) key kind capability name reason s = elim (string_array_value value key) [
    | err e ↦ (s, err e)
    | ok subjects ↦ ensure_each kind capability name "permissions.set_profile" reason subjects s
  ]

  unfoldable pub sync_setting_grants : List (String × Params ops) → Store ops → Progress (Store ops)
  unfolding sync_switch sync_list
  sync_setting_grants updates s =
      let source : String = "permissions.set_profile" in
      then_on
        (then_on
          (then_on
            (then_on
              (then_on
                (sync_switch (find_setting updates "permissions.network_enabled") "network"
                  "network" "network:use" (scope_of "network" (string "all") source)
                  "network permission enabled" "network permission disabled" s)
                (sync_switch (find_setting updates "permissions.automation_enabled")
                  "app_automation" "automation" "automation:run"
                  (scope_of "automation" (bool true) source) "automation permission enabled"
                  "automation permission disabled"))
              (sync_switch (find_setting updates "permissions.shell_access") "shell" "shell"
                "shell:execute" (scope_of "shell" (string "local") source)
                "shell permission enabled" "shell permission disabled"))
            (sync_list (find_setting updates "permissions.local_roots") "permissions.local_roots"
              "filesystem" "filesystem:root" "root" "local root granted"))
          (sync_list (find_setting updates "permissions.local_filesystem_grants")
            "permissions.local_filesystem_grants" "filesystem" "filesystem:access" "root"
            "local filesystem grant enabled"))
        (sync_list (find_setting updates "permissions.google_drive_grants")
          "permissions.google_drive_grants" "cloud_drive" "cloud-drive:access" "drive_scope"
          "cloud drive grant enabled")

  -- Reconciling, when the brain starts

  unfoldable pub reconcile_switch :
      Bool
      → String
      → String
      → String
      → Params ops
      → String
      → String
      → Store ops
      → Progress (Store ops)
  unfolding reconcile_boolean_grant
  reconcile_switch enabled kind subject capability scope on_reason off_reason s =
      committed_store s (
        reconcile_boolean_grant ops now (uuid s.grants) enabled kind subject capability scope
          on_reason off_reason s)

  -- A grant that has never been written
  unfoldable pub reconcile_each :
      String → String → String → String → List String → Store ops → Progress (Store ops)
  unfolding ensure grant_history_exists
  reconcile_each kind capability name reason [] s = (s, ok tt)
  reconcile_each kind capability name reason (subject ∷ subjects) s =
      then_on
        (if not (grant_history_exists kind subject capability s.grants)
          then ensure kind subject capability
              (scope_of name (string subject) "permissions.reconcile") reason s
          else (s, ok tt))
        (reconcile_each kind capability name reason subjects)

  unfoldable pub reconcile_system_grants : PermissionState → Store ops → Progress (Store ops)
  unfolding reconcile_switch reconcile_each
  reconcile_system_grants permissions s =
      let source : String = "permissions.reconcile" in
      then_on
        (then_on
          (then_on
            (then_on
              (then_on
                (then_on
                  (then_on
                    (then_on
                      (reconcile_switch permissions.network_enabled "network" "network"
                        "network:use" (scope_of "network" (string "all") source)
                        "network permission reconciled from settings" "network permission disabled"
                        s)
                      (reconcile_switch permissions.filesystem_enabled "filesystem" "filesystem"
                        "filesystem:use" (scope_of "filesystem" (string "enabled") source)
                        "filesystem permission reconciled from settings"
                        "filesystem permission disabled"))
                    (reconcile_switch permissions.browser_enabled "browser" "browser" "browser:use"
                      (scope_of "browser" (string "enabled") source)
                      "browser permission reconciled from settings" "browser permission disabled"))
                  (reconcile_switch permissions.automation_enabled "app_automation" "automation"
                    "automation:run" (scope_of "automation" (bool true) source)
                    "automation permission reconciled from settings"
                    "automation permission disabled"))
                (reconcile_switch permissions.shell_access "shell" "shell" "shell:execute"
                  (scope_of "shell" (string "local") source)
                  "shell permission reconciled from settings" "shell permission disabled"))
              (reconcile_switch permissions.provider_key_access "provider_key" "provider_key"
                "provider-key:use" (scope_of "provider_key" (bool true) source)
                "provider key permission reconciled from settings"
                "provider key permission disabled"))
            (reconcile_each "filesystem" "filesystem:root" "root"
              "local root reconciled from settings" permissions.local_roots))
          (reconcile_each "filesystem" "filesystem:access" "root"
            "local filesystem grant reconciled from settings" permissions.local_filesystem_grants))
        (reconcile_each "cloud_drive" "cloud-drive:access" "drive_scope"
          "cloud drive grant reconciled from settings" permissions.google_drive_grants)

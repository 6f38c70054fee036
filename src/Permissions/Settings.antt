-- ===== src/Permissions/Settings.antt =====
-- The permission settings (crates/hom-brain/src/services/permissions.rs): the state they give, which
-- of them broaden it, and the gates that read it. Reading and writing JSON texts, quotes around a
-- text and absolute paths are serde_json's and the standard library's, and parameters.
use Prim.Native.String.{◌++◌ as append}
use hom_local.Prelude.{
  String, Bool, false, not, List, [], ◌∷◌, Option, none, some, str_eq, any_of, Result, ok, err,
  ◌>>=◌, ◌>>◌, map_err, if◌then◌else◌,
}
use hom_local.Prelude.Int.{ℤ, pos, negsuc, ltb_ℤ}
use hom_local.Codes.{any_piece}
use hom_local.Json.{Value}
use hom_local.Json.Order.{text_le}
use hom_local.Json.Access.{as_str, as_bool, as_array}
use hom_local.Permissions.{
  RpcError, rpc_err, invalid_params, internal_error, is_blank, option_or, chain, ok_or,
}

pub record SettingOps : Type 1 where
  pub parse_string : String → Option String
  pub parse_bool : String → Result String Bool
  pub parse_strings : String → Result String (List String)
  pub trim_quotes : String → String
  pub is_absolute : String → Bool

pub record PermissionState : Type 0 where
  pub profile : String
  pub network_enabled : Bool
  pub filesystem_enabled : Bool
  pub browser_enabled : Bool
  pub automation_enabled : Bool
  pub shell_access : Bool
  pub provider_key_access : Bool
  pub local_roots : List String
  pub google_drive_grants : List String
  pub local_filesystem_grants : List String

-- The six switches of the state
pub record Switches : Type 0 where
  pub network_enabled : Bool
  pub filesystem_enabled : Bool
  pub browser_enabled : Bool
  pub automation_enabled : Bool
  pub shell_access : Bool
  pub provider_key_access : Bool

unfoldable pub profile_rank : String → ℤ
profile_rank profile =
    if str_eq profile "restricted"
    then pos 0
    else if str_eq profile "workspace"
    then pos 1
    else if str_eq profile "full_access"
    then pos 2
    else negsuc 0

unfoldable pub validate_profile : String → Result RpcError (Unit {0})
unfolding profile_rank
validate_profile profile =
    if ltb_ℤ (profile_rank profile) (pos 0)
    then err (rpc_err invalid_params (append "invalid_permission_profile: " profile))
    else ok tt

-- `SELECT value FROM settings WHERE key = ?`
unfoldable pub read_setting : List (String × String) → String → Option String
read_setting [] key = none
read_setting ((k, v) ∷ settings) key =
    let later = read_setting settings key in if str_eq k key then some v else later

abbrev suffixed : String → Result String Bool → String → Result RpcError Bool
suffixed key r what = map_err (λ e. rpc_err internal_error (append key (append what e))) r

module _ (ops : SettingOps) where
  abbrev not_blank_text : String → Option String
  not_blank_text s = if is_blank s then none else some s

  unfoldable pub read_string : List (String × String) → String → Option String
  unfolding read_setting is_blank
  read_string settings key =
      chain (read_setting settings key)
        (λ raw. not_blank_text (option_or (ops.trim_quotes raw) (ops.parse_string raw)))

  unfoldable pub read_bool : List (String × String) → String → Result RpcError Bool
  unfolding read_setting
  read_bool settings key = elim (read_setting settings key) [
    | none ↦ ok false
    | some raw ↦ suffixed key (ops.parse_bool raw) "_parse_bool: "
  ]

  unfoldable pub read_string_array : List (String × String) → String → Result RpcError (List String)
  unfolding read_setting
  read_string_array settings key = elim (read_setting settings key) [
    | none ↦ ok []
    | some raw ↦
        map_err (λ e. rpc_err internal_error (append key (append "_parse_array: " e)))
          (ops.parse_strings raw)
  ]

  unfoldable pub load_switches : List (String × String) → Result RpcError Switches
  unfolding read_bool
  load_switches settings = do
    network ← read_bool settings "permissions.network_enabled"
    filesystem ← read_bool settings "permissions.filesystem_enabled"
    browser ← read_bool settings "permissions.browser_enabled"
    automation ← read_bool settings "permissions.automation_enabled"
    shell ← read_bool settings "permissions.shell_access"
    provider_key ← read_bool settings "permissions.provider_key_access"
    ok (record {
      network_enabled = network;
      filesystem_enabled = filesystem;
      browser_enabled = browser;
      automation_enabled = automation;
      shell_access = shell;
      provider_key_access = provider_key;
    })

  unfoldable pub load_state : List (String × String) → Result RpcError PermissionState
  unfolding read_string load_switches read_string_array validate_profile
  load_state settings = do
    let profile = option_or "restricted" (read_string settings "permissions.profile") in
        do
          validate_profile profile
          switches ← load_switches settings
          roots ← read_string_array settings "permissions.local_roots"
          drives ← read_string_array settings "permissions.google_drive_grants"
          files ← read_string_array settings "permissions.local_filesystem_grants"
          ok (record {
            profile = profile;
            network_enabled = switches.network_enabled;
            filesystem_enabled = switches.filesystem_enabled;
            browser_enabled = switches.browser_enabled;
            automation_enabled = switches.automation_enabled;
            shell_access = switches.shell_access;
            provider_key_access = switches.provider_key_access;
            local_roots = roots;
            google_drive_grants = drives;
            local_filesystem_grants = files;
          })

-- Values of settings

unfoldable pub bool_value : {N : Type 0} → Value N → String → Result RpcError Bool
bool_value value key =
    ok_or (rpc_err invalid_params (append key "_must_be_boolean")) (as_bool value)

abbrev insert_text : String → List String → List String
insert_text s [] = s ∷ []
insert_text s (t ∷ texts) =
    let rest = insert_text s texts in if text_le s t then s ∷ t ∷ texts else t ∷ rest

-- `sort`
abbrev pub sort_texts : List String → List String
sort_texts [] = []
sort_texts (s ∷ texts) = insert_text s (sort_texts texts)

abbrev drop_repeated : String → List String → List String
drop_repeated s [] = s ∷ []
drop_repeated s (t ∷ texts) = if str_eq s t then t ∷ texts else s ∷ t ∷ texts

-- `dedup`
abbrev dedup : List String → List String
dedup [] = []
dedup (s ∷ texts) = drop_repeated s (dedup texts)

unfoldable pub strings_of : {N : Type 0} → String → List (Value N) → Result RpcError (List String)
unfolding is_blank
strings_of key [] = ok []
strings_of key (item ∷ values) = do
  value ← ok_or (rpc_err invalid_params (append key "_must_contain_strings")) (as_str item)
  if is_blank value
      then err (rpc_err invalid_params (append key "_contains_empty_value"))
      else do rest ← strings_of key values; ok (value ∷ rest)

unfoldable pub string_array_value : {N : Type 0} → Value N → String → Result RpcError (List String)
unfolding strings_of
string_array_value value key = do
  values ← ok_or (rpc_err invalid_params (append key "_must_be_array")) (as_array value)
  texts ← strings_of key values
  ok (dedup (sort_texts texts))

unfoldable pub validate_absolute_paths :
    (String → Bool) → String → List String → Result RpcError (Unit {0})
validate_absolute_paths is_absolute key [] = ok tt
validate_absolute_paths is_absolute key (path ∷ paths) =
    let rest = validate_absolute_paths is_absolute key paths in
    if not (is_absolute path)
    then err (rpc_err invalid_params (append key "_must_be_absolute"))
    else rest

-- Whether some of the values is not among those that are there.
abbrev pub has_new : List String → List String → Bool
has_new values current = any_piece (λ v. not (any_of v current)) values

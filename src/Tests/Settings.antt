-- ===== src/Tests/Settings.antt =====
-- The permission settings (crates/hom-brain/src/services/permissions.rs) over a reader that knows
-- the texts of these tests.
use hom_local.Prelude.{
  ℕ, true, false, [], ◌∷◌, ◌++◌, ◌≡◌, refl, ok, err, none, some, str_eq, if◌then◌else◌,
}
use hom_local.Prelude.Int.{pos}
use hom_local.Json.{Value, bool}
use hom_local.Permissions.{permission_error}
use hom_local.Permissions.Settings.{SettingOps, PermissionState, bool_value}
use hom_local.Permissions.Gate.{
  validate_permission_settings, collect_broadening, setting_broadens, enforce_tool_gate,
  domain_gate,
}
use hom_local.Permissions.Narrowing.{Narrows, network, unconfirmed-Narrows}

abbrev settings : SettingOps
settings = record {
  parse_string = λ raw. some raw;
  parse_bool = λ raw. ok (str_eq raw "true");
  parse_strings = λ raw. ok (if str_eq raw "[]" then [] else "/home/u/proj" ∷ []);
  trim_quotes = λ raw. raw;
  is_absolute = λ path. true;
}

abbrev no_roots : PermissionState
no_roots = record {
  profile = "restricted";
  network_enabled = false;
  filesystem_enabled = false;
  browser_enabled = false;
  automation_enabled = false;
  shell_access = false;
  provider_key_access = false;
  local_roots = [];
  google_drive_grants = [];
  local_filesystem_grants = [];
}

abbrev online : PermissionState
online = record no_roots { network_enabled = true }

abbrev turned_on : Value ℕ
turned_on = bool true

passes_unconfirmed :
    validate_permission_settings settings.is_absolute online
      ([] ++ (("permissions.network_enabled", turned_on) ∷ []))
      false
    ≡ ok tt
unfolding validate_permission_settings collect_broadening setting_broadens bool_value
passes_unconfirmed = refl

unconfirmed-Narrows_example : Narrows {N = ℕ} online network turned_on
unconfirmed-Narrows_example =
    unconfirmed-Narrows settings.is_absolute online [] [] network turned_on tt passes_unconfirmed

denies_unknown_domain :
    enforce_tool_gate {N = ℕ} (pos 5) online [] "printer" none
    ≡ err (permission_error "tool_gate_unknown_denied")
unfolding enforce_tool_gate domain_gate permission_error
denies_unknown_domain = refl

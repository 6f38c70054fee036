-- ===== src/Tests/Recorded.antt =====
-- Revocations (crates/hom-brain/src/services/permissions.rs) of the grant of a root, recorded in the
-- ledger of crates/hom-brain/src/db/storage.rs. The reader of settings knows the texts of this test.
use Prim.Native.String.{◌++◌ as append}
use hom_local.Prelude.{
  ℕ, String, true, false, List, [], ◌∷◌, ◌≡◌, refl, ok, err, none, some, str_eq, any_of, ap,
  ok-injective, sym, ◌∙◌, if◌then◌else◌,
}
use hom_local.Prelude.Int.{pos}
use hom_local.Codes.{trim, is_whitespace}
use hom_local.Json.{
  Value, object, field, string, end, canonical_json, write_value, write_items, write_fields,
  sort_entries, insert_entry, join_items, join_entries, entry_text, number_to_text,
}
use hom_local.Json.Order.{text_le, codes_le}
use hom_local.Json.Written.{QuotesAll}
use hom_local.Ledger.{LedgerEventRow, hash_object, last_row}
use hom_local.Ledger.Store.{LedgerStore, append_ledger_tx, chain_head, active_ledger_epoch}
use hom_local.Ledger.Written.{WritesTimes}
use hom_local.Permissions.{
  GrantOps, GrantRow, string_field, is_blank, normalize_grant_kind, permission_error,
  system_grantee,
}
use hom_local.Permissions.Grants.{
  GrantFilter, grant_filter, passes, active_grant_ids_tx, require_active_grant, set_revoked,
  grant_row_by_id_tx,
}
use hom_local.Permissions.Handlers.{Store, revoke_grants, revoke_each, revoked_payload}
use hom_local.Permissions.System.{revoke_system_grant, revoke_system_grant_if_present}
use hom_local.Permissions.Settings.{
  SettingOps, PermissionState, load_state, load_switches, read_setting, read_string, read_bool,
  read_string_array, validate_profile, profile_rank,
}
use hom_local.Permissions.Gone.{system_key}
use hom_local.Permissions.Sync.{revoke_if_present}
use hom_local.Permissions.Profile.{PermissionOps, State, revoke_root, left_roots, persist_settings}
use hom_local.Permissions.Roots.{path_keys, revoke_root_revokes}
use hom_local.Permissions.Recorded.{on_ledger, append_event, recorded_revocation_returns}
use hom_local.Tests.Json.{serde}
use hom_local.Tests.Ledger.{ops as ledger, b64}

abbrev recorded : GrantOps
recorded = on_ledger ledger (λ n. some (pos n)) (λ s. pos 1) (λ s. "e1")

abbrev settings : SettingOps
settings = record {
  parse_string = λ raw. some raw;
  parse_bool = λ raw. ok (str_eq raw "true");
  parse_strings = λ raw. ok (if str_eq raw "[]" then [] else "/home/u/proj" ∷ []);
  trim_quotes = λ raw. raw;
  is_absolute = λ path. true;
}

abbrev permissions : PermissionOps
permissions = record {
  grants = recorded;
  settings = settings;
  to_text = λ value. "[]";
  uuid = λ grants. "g";
}

abbrev root_row : GrantRow
root_row = record {
  id = "g1";
  grant_kind = "filesystem";
  subject_id = "/home/u/proj";
  grantee_id = system_grantee;
  capability_id = some "filesystem:root";
  scope_json = "{}";
  state = "active";
  issuer = "permissions.set_profile";
  reason = some "root";
  expires_at_s = none;
  revoked_at_s = none;
  ledger_event_id = some "e0";
  created_at_s = pos 1;
  updated_at_s = pos 1;
}

abbrev no_events : LedgerStore
no_events = record { events = []; epochs = []; mutations = []; certificates = [] }

abbrev store : Store recorded
store = record { grants = root_row ∷ []; ledger = no_events }

abbrev rooted : State permissions
rooted = record { settings = ("permissions.local_roots", "[one]") ∷ []; store = store }

abbrev request : Value ℕ
request = object (field "path" (string "/home/u/proj") end)

abbrev no_roots : PermissionState
no_roots = record {
  profile = "restricted";
  network_enabled = false;
  filesystem_enabled = false;
  browser_enabled = false;
  automation_enabled = false;
  shell_access = false;
  provider_key_access = false;
  local_roots = [];
  google_drive_grants = [];
  local_filesystem_grants = [];
}

abbrev event : LedgerEventRow
event = record {
  row_id = pos 1;
  event_id = "e1";
  event_type = "permission.grant.revoked";
  actor = "permissions.revoke_root";
  subject_id = some "/home/u/proj";
  payload_json =
      "{'capability_id':'filesystem:root','grant_id':'g1','grant_kind':'filesystem','grantee_id':'hom-local','reason':'local root revoked','subject_id':'/home/u/proj'}";
  prev_hash = none;
  event_hash = b64;
  created_at_s = pos 5;
  ledger_epoch_id = none;
}

abbrev revoked_row : GrantRow
revoked_row = record root_row {
  state = "revoked";
  revoked_at_s = some (pos 5);
  reason = some "local root revoked";
  ledger_event_id = some "e1";
  updated_at_s = pos 5;
}

abbrev unrooted : State permissions
unrooted = record {
  settings = ("permissions.local_roots", "[]") ∷ [];
  store = record { grants = revoked_row ∷ []; ledger = record no_events { events = event ∷ [] } };
}

reads_roots : left_roots permissions request rooted ≡ ok ("/home/u/proj", [])
unfolding left_roots string_field is_blank trim is_whitespace load_state load_switches read_setting
    read_string read_bool read_string_array validate_profile profile_rank
reads_roots = refl

revokes_root : revoke_root permissions (pos 5) request rooted ≡ (unrooted, ok no_roots)
unfolding revoke_root left_roots string_field is_blank trim is_whitespace load_state load_switches
    read_setting read_string read_bool read_string_array validate_profile profile_rank
    persist_settings revoke_if_present revoke_system_grant_if_present revoke_system_grant
    revoke_grants grant_filter normalize_grant_kind active_grant_ids_tx passes revoke_each
    revoked_payload grant_row_by_id_tx set_revoked append_event append_ledger_tx chain_head
    active_ledger_epoch last_row hash_object canonical_json write_value write_items write_fields
    sort_entries insert_entry join_items join_entries entry_text number_to_text text_le codes_le
revokes_root = refl

revoke_root_revokes_example :
    (path : String) × ((string_field request path_keys ≡ some path)
      × ((any_of path no_roots.local_roots ≡ false)
          × (require_active_grant
                (pos 9)
                (system_key recorded "filesystem" path "filesystem:root")
                "denied"
                unrooted.store.grants
              ≡ err (permission_error "denied"))))
revoke_root_revokes_example =
    revoke_root_revokes permissions (pos 5) (pos 9) request "denied" rooted unrooted no_roots
      (λ path roots left. ap (λ r. ok r.1) (ok-injective (sym reads_roots ∙ left))) revokes_root

abbrev revocation : Value ℕ
revocation = object (field "kind" (string "filesystem") end)

abbrev all_roots : GrantFilter
all_roots = record {
  id = none;
  grant_kind = some "filesystem";
  subject_id = none;
  grantee_id = none;
  capability_id = none;
}

filter_is_read : grant_filter revocation ≡ ok all_roots
unfolding grant_filter string_field is_blank trim is_whitespace normalize_grant_kind
filter_is_read = refl

quotes : QuotesAll serde
quotes = λ s. (append "'" (append s "'"), refl)

times : WritesTimes ledger
unfolding number_to_text
times = λ z. ("n", refl)

recorded_revocation_returns_example :
    (done : List GrantRow × Store recorded) × (revoke_grants recorded
        (pos 5)
        revocation
        "done"
        "user"
        store
      ≡ ok done)
recorded_revocation_returns_example =
    recorded_revocation_returns ledger (λ n. some (pos n)) (λ s. pos 1) (λ s. "e1") (pos 5)
      revocation "done" "user" store all_roots quotes times filter_is_read

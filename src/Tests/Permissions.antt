-- ===== src/Tests/Permissions.antt =====
-- Permissions (crates/hom-brain/src/services/permissions.rs) on an empty table, over a ledger that
-- takes every event and keeps its kind.
use hom_local.Prelude.{ℕ, String, true, false, List, [], ◌∷◌, ◌≡◌, refl, ok, none, some, All}
use hom_local.Prelude.Int.{pos}
use hom_local.Codes.{trim, is_whitespace}
use hom_local.Json.{
  Value, object, field, string, end, canonical_json, write_value, write_items, write_fields,
  sort_entries, insert_entry, join_items, join_entries, entry_text, number_to_text,
}
use hom_local.Json.Order.{text_le, codes_le}
use hom_local.Tests.Json.{serde}
use hom_local.Permissions.{
  GrantOps, GrantRow, GrantInput, grant_input, string_field, is_blank, normalize_grant_kind,
  confirmation_present,
}
use hom_local.Permissions.Grants.{
  GrantFilter, key_of, has_key, is_unexpired, latest, has_filesystem_grant, upsert, refresh,
  supersede, set_revoked, grant_row_by_id_tx, grant_filter, passes, active_grant_ids_tx,
  require_active_grant,
}
use hom_local.Permissions.Handlers.{
  Store, create_or_refresh_grant, grants_create, grant_is_broadening, is_current, created_payload,
  new_grant, chosen_id, is_existing, revoke_grants, revoke_each, revoked_payload,
}
use hom_local.Permissions.Confirmed.{is_there, unconfirmed_is_there}
use hom_local.Permissions.Revoked.{IsGone, revoke_grants-IsGone}
use hom_local.Permissions.Single.{Single}
use hom_local.Permissions.Steps.{start, created, revoked, run-Single}
use hom_local.Permissions.Check.{created_can_check}

abbrev pub ops : GrantOps
ops = record {
  serde = serde;
  as_i64 = λ n. some (pos n);
  of_i64 = λ z. 0;
  Ledger = List String;
  append_ledger = λ kind actor subject payload now ledger. ok (kind ∷ ledger, some "event");
}

abbrev pub empty : Store ops
empty = record { grants = []; ledger = [] }

abbrev shell : GrantInput ℕ
shell = record {
  grant_kind = "shell";
  subject_id = "workspace";
  grantee_id = "hom-local";
  capability_id = some "shell:execute";
  scope = object end;
  issuer = "user";
  reason = "build";
  expires_at_s = some (pos 2000);
}

abbrev shell_row : GrantRow
shell_row = record {
  id = "g1";
  grant_kind = "shell";
  subject_id = "workspace";
  grantee_id = "hom-local";
  capability_id = some "shell:execute";
  scope_json = "{}";
  state = "active";
  issuer = "user";
  reason = some "build";
  expires_at_s = some (pos 2000);
  revoked_at_s = none;
  ledger_event_id = some "event";
  created_at_s = pos 1000;
  updated_at_s = pos 1000;
}

abbrev one : Store ops
one = record { grants = shell_row ∷ []; ledger = "permission.grant.created" ∷ [] }

creates : create_or_refresh_grant ops (pos 1000) "g1" shell "user" empty ≡ ok (shell_row, one)
unfolding create_or_refresh_grant created_payload new_grant chosen_id is_existing latest upsert
    refresh supersede has_key grant_row_by_id_tx canonical_json write_value write_items write_fields
    sort_entries insert_entry join_items join_entries entry_text number_to_text text_le codes_le
creates = refl

created_can_check_example :
    (r : GrantRow) × (require_active_grant (pos 1500) (key_of shell) "denied" one.grants ≡ ok r)
created_can_check_example =
    created_can_check ops (pos 1000) (pos 1500) "g1" "user" "denied" shell empty (shell_row, one)
      refl creates refl

abbrev revocation : Value ℕ
revocation = object (field "kind" (string "Shell") end)

abbrev shell_filter : GrantFilter
shell_filter = record {
  id = none;
  grant_kind = some "shell";
  subject_id = none;
  grantee_id = none;
  capability_id = none;
}

filter_is_read : grant_filter revocation ≡ ok shell_filter
unfolding grant_filter string_field is_blank trim is_whitespace normalize_grant_kind
filter_is_read = refl

abbrev revoked_row : GrantRow
revoked_row = record shell_row {
  state = "revoked";
  revoked_at_s = some (pos 1200);
  reason = some "done";
  updated_at_s = pos 1200;
}

abbrev after : Store ops
after = record {
  grants = revoked_row ∷ [];
  ledger = "permission.grant.revoked" ∷ "permission.grant.created" ∷ [];
}

revokes : revoke_grants ops (pos 1200) revocation "done" "user" one ≡ ok (revoked_row ∷ [], after)
unfolding revoke_grants grant_filter string_field is_blank trim is_whitespace normalize_grant_kind
    active_grant_ids_tx passes revoke_each revoked_payload grant_row_by_id_tx set_revoked
revokes = refl

revoke_grants-IsGone_example : All (IsGone ops shell_filter) after.grants
revoke_grants-IsGone_example =
    revoke_grants-IsGone ops (pos 1200) revocation "done" "user" one (revoked_row ∷ [], after)
      shell_filter filter_is_read revokes

run-Single_example : Single after.grants
run-Single_example =
    run-Single ops
      (revoked (pos 1200) revocation "done" "user" (revoked_row ∷ [])
        (created (pos 1000) "g1" "user" shell shell_row start refl creates) revokes)
      tt

-- A repeated request

abbrev again : Value ℕ
again = object (
    field "kind" (string "shell") (
      field "subject" (string "workspace")
        (field "capability" (string "shell:execute") (field "reason" (string "build") end))))

abbrev extended_row : GrantRow
extended_row = record shell_row {
  issuer = "hom-local.user";
  expires_at_s = none;
  updated_at_s = pos 1100;
}

abbrev extended : Store ops
extended = record {
  grants = extended_row ∷ [];
  ledger = "permission.grant.created" ∷ "permission.grant.created" ∷ [];
}

-- Without a confirmation, a grant that expires becomes one that does not.
extends_unconfirmed : grants_create ops (pos 1100) "g2" again one ≡ ok (extended_row, extended)
unfolding grants_create grant_input string_field is_blank trim is_whitespace normalize_grant_kind
    confirmation_present grant_is_broadening is_current is_unexpired create_or_refresh_grant
    created_payload new_grant chosen_id is_existing latest upsert refresh supersede has_key
    grant_row_by_id_tx canonical_json write_value write_items write_fields sort_entries insert_entry
    join_items join_entries entry_text number_to_text text_le codes_le
extends_unconfirmed = refl

again_is_unconfirmed : confirmation_present again ≡ false
unfolding confirmation_present
again_is_unconfirmed = refl

unconfirmed_is_there_example :
    (grant : GrantInput ℕ) × ((grant_input ops again ≡ ok grant)
      × (is_there ops (pos 1100) grant one ≡ true))
unconfirmed_is_there_example =
    unconfirmed_is_there ops (pos 1100) "g2" again one (extended_row, extended) again_is_unconfirmed
      extends_unconfirmed

abbrev project : GrantRow
project = record shell_row { grant_kind = "filesystem"; subject_id = "/home/u/proj" }

-- A grant of one directory covers every path whose text begins as its path does.
covers_sibling : has_filesystem_grant (pos 1100) "/home/u/proj-secret/key" (project ∷ []) ≡ true
unfolding has_filesystem_grant is_unexpired
covers_sibling = refl

-- ===== src/Tests/Mutation.antt =====
-- The table of mutations (crates/hom-brain/src/db/storage.rs, `record_mutation_tx`): an edited
-- event, its record, and a second record of it.
use hom_local.Prelude.{String, ◌≡◌, refl, [], ◌∷◌, none, some, ok}
use hom_local.Prelude.Int.{pos}
use hom_local.Json.{
  null, canonical_json, write_value, write_items, write_fields, sort_entries, insert_entry,
  join_items, join_entries, entry_text, number_to_text,
}
use hom_local.Json.Order.{text_le, codes_le}
use hom_local.Ledger.{
  SelfModified, self_modified_preserved, mutation_of, ledger_row_status, last_row,
}
use hom_local.Ledger.Mutation.{
  MutationRow, Mutation, load, mutation_object, record_mutation_tx, second_mutation_ignored,
  mutation_preserves,
}
use hom_local.Tests.Json.{apart}
use hom_local.Tests.Ledger.{ops, edited, edited_text, edited_hashed, edited_is_hex, digest, b64}

abbrev change : Mutation ops
change = record {
  target_ledger_event_id = "e2";
  target_row_id = pos 2;
  mutation_type = "nightly.weights";
  actor = "brain";
  cycle_id = none;
  allowed_fields = null;
  payload_delta = null;
  original_event_hash = edited.event_hash;
  post_mutation_payload = null;
  rationale = "weights";
  created_at_s = pos 1002;
}

abbrev recorded : String → MutationRow
recorded id = record {
  loaded = record {
    mutation_id = id;
    target_ledger_event_id = "e2";
    mutation_type = "nightly.weights";
    original_event_hash = edited.event_hash;
    post_mutation_payload_hash = b64;
  };
  target_row_id = pos 2;
  actor = "brain";
  cycle_id = none;
  allowed_fields_json = "null";
  payload_delta_json = "null";
  rationale = "weights";
  prev_mutation_hash = none;
  mutation_hash = b64;
  created_at_s = pos 1002;
}

first_record : record_mutation_tx ops "m1" change [] ≡ ok (recorded "m1" ∷ [])
unfolding record_mutation_tx mutation_object last_row canonical_json write_value write_items
    write_fields sort_entries insert_entry join_items join_entries entry_text number_to_text text_le
    codes_le
first_record = refl

second_record :
    record_mutation_tx ops "m2" change (recorded "m1" ∷ [])
    ≡ ok (recorded "m1" ∷ record (recorded "m2") { prev_mutation_hash = some b64 } ∷ [])
unfolding record_mutation_tx mutation_object last_row canonical_json write_value write_items
    write_fields sort_entries insert_entry join_items join_entries entry_text number_to_text text_le
    codes_le
second_record = refl

no_record : mutation_of "e2" [] ≡ none
unfolding mutation_of
no_record = refl

one_record : mutation_of "e2" (load (recorded "m1" ∷ [])) ≡ some (recorded "m1").loaded
unfolding mutation_of
one_record = refl

mutation_preserves_example :
    (d : SelfModified) × (ledger_row_status ops edited (some b64) (load (recorded "m1" ∷ []))
      ≡ ok (self_modified_preserved d))
mutation_preserves_example =
    mutation_preserves ops "m1" change [] (recorded "m1" ∷ []) edited (some b64) edited_text
      first_record no_record refl refl edited_is_hex refl refl edited_hashed
      (apart edited.event_hash (digest edited_text) refl)

second_mutation_ignored_example :
    ledger_row_status ops edited
      (some b64)
      (load (recorded "m1" ∷ record (recorded "m2") { prev_mutation_hash = some b64 } ∷ []))
    ≡ ledger_row_status ops edited (some b64) (load (recorded "m1" ∷ []))
second_mutation_ignored_example =
    second_mutation_ignored ops "m2" change (recorded "m1" ∷ [])
      (recorded "m1" ∷ record (recorded "m2") { prev_mutation_hash = some b64 } ∷ [])
      (recorded "m1").loaded edited (some b64) second_record one_record

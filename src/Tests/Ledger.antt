-- ===== src/Tests/Ledger.antt =====
-- The ledger (crates/hom-brain/src/db/storage.rs) on one event, over operations that stand for
-- serde_json and SHA-256: every payload is `null`, and the digest tells one text from the others.
use hom_local.Prelude.{
  String, ◌≡◌, refl, true, [], ◌∷◌, none, some, str_eq, ok, length, Bool-cases, inl, inr,
  if◌then◌else◌,
}
use hom_local.Prelude.Int.{pos}
use hom_local.Json.{
  null, canonical_json, write_value, write_items, write_fields, sort_entries, insert_entry,
  join_items, join_entries, entry_text, number_to_text,
}
use hom_local.Json.Order.{text_le, codes_le}
use hom_local.Json.Laws.{same}
use hom_local.Ledger.{
  LedgerOps, LedgerEventRow, LedgerSequenceVerification, fresh, verify_ledger_sequence, hash_of,
  last_row, or_else, mutation_of, is_64_hex, hash_object, ledger_row_status, opt_eq, content_status,
  row_object,
}
use hom_local.Ledger.Store.{
  LedgerStore, LedgerReport, verify_ledger_conn, append_ledger_tx, rows_of, report_without_epoch,
  chain_head,
}
use hom_local.Ledger.Sound.{IsChained, sequence_sound}
use hom_local.Ledger.Append.{HexDigests, ReadsBack, Extends, append_keeps_valid}
use hom_local.Ledger.Tamper.{Edited, NoCollision, mismatch, tampering_found}
use hom_local.Tests.Json.{serde, apart}

abbrev pub digest : String → String
digest t =
    if str_eq t "original"
    then "aaaaaaaaaaaaaaaaaaaaaaaaaaaaaaaaaaaaaaaaaaaaaaaaaaaaaaaaaaaaaaaa"
    else "bbbbbbbbbbbbbbbbbbbbbbbbbbbbbbbbbbbbbbbbbbbbbbbbbbbbbbbbbbbbbbbb"

abbrev pub ops : LedgerOps
ops = record { serde = serde; of_i64 = λ z. 0; from_str = λ text. ok null; sha256_hex = digest }

abbrev empty : LedgerStore
empty = record { events = []; epochs = []; mutations = []; certificates = [] }

abbrev pub b64 : String
b64 = "bbbbbbbbbbbbbbbbbbbbbbbbbbbbbbbbbbbbbbbbbbbbbbbbbbbbbbbbbbbbbbbb"

abbrev row1 : LedgerEventRow
row1 = record {
  row_id = pos 1;
  event_id = "e1";
  event_type = "memory.saved";
  actor = "ui";
  subject_id = none;
  payload_json = "null";
  prev_hash = none;
  event_hash = b64;
  created_at_s = pos 1000;
  ledger_epoch_id = none;
}

abbrev one : LedgerStore
one = record empty { events = row1 ∷ [] }

empty_verifies : verify_ledger_conn ops empty ≡ ok (report_without_epoch empty (fresh ops 0))
unfolding verify_ledger_conn
empty_verifies = refl

empty_is_clean : (report_without_epoch empty (fresh ops 0)).first_invalid ≡ none
unfolding report_without_epoch
empty_is_clean = refl

first_event :
    append_ledger_tx ops (pos 1) "e1" "memory.saved" "ui" none null (pos 1000) empty
    ≡ ok (one, row1)
unfolding append_ledger_tx chain_head hash_object canonical_json write_value write_items
    write_fields sort_entries insert_entry join_items join_entries entry_text number_to_text text_le
    codes_le
first_event = refl

null-ReadsBack : ReadsBack ops null
null-ReadsBack t h = (null, refl, same)

digests_are_hex : HexDigests ops
unfolding is_64_hex
digests_are_hex t = elim (Bool-cases (str_eq t "original")) [
  | inl e ↦ rw e refl
  | inr e ↦ rw e refl
]

plain : rows_of none empty.events ≡ empty.events
unfolding rows_of
plain = refl

append_keeps_valid_example :
    (r' : LedgerReport) × (verify_ledger_conn ops one ≡ ok r')
    × Extends ops (report_without_epoch empty (fresh ops 0)) row1 r'
append_keeps_valid_example =
    append_keeps_valid ops (pos 1) (pos 1000) "e1" "memory.saved" "ui" none null empty one row1
      (report_without_epoch empty (fresh ops 0)) digests_are_hex null-ReadsBack (λ e. plain)
      empty_verifies empty_is_clean first_event

abbrev checked_one : LedgerSequenceVerification
checked_one = record {
  total_events = 1;
  checked_events = 1;
  verified_head_hash = some b64;
  last_verified_event_id = some "e1";
  first_invalid = none;
  self_modified_events = [];
}

one_verifies : verify_ledger_sequence ops (row1 ∷ []) none [] ≡ ok checked_one
unfolding verify_ledger_sequence ledger_row_status is_64_hex opt_eq content_status hash_object
    canonical_json write_value write_items write_fields sort_entries insert_entry join_items
    join_entries entry_text number_to_text text_le codes_le
one_verifies = refl

sequence_sound_example :
    IsChained ops [] none (row1 ∷ [])
    × (1 ≡ length (row1 ∷ []))
    × (1 ≡ length (row1 ∷ []))
    × (some b64 ≡ hash_of (last_row (row1 ∷ [])))
sequence_sound_example = sequence_sound ops [] (row1 ∷ []) none checked_one one_verifies refl

abbrev pub edited : LedgerEventRow
edited = record {
  row_id = pos 2;
  event_id = "e2";
  event_type = "memory.saved";
  actor = "ui";
  subject_id = none;
  payload_json = "null";
  prev_hash = some b64;
  event_hash = "aaaaaaaaaaaaaaaaaaaaaaaaaaaaaaaaaaaaaaaaaaaaaaaaaaaaaaaaaaaaaaaa";
  created_at_s = pos 1001;
  ledger_epoch_id = none;
}

abbrev pub edited_text : String
edited_text =
    "{'actor':'ui','created_at_s':n,'event_id':'e2','event_type':'memory.saved','payload':null,'prev_hash':'bbbbbbbbbbbbbbbbbbbbbbbbbbbbbbbbbbbbbbbbbbbbbbbbbbbbbbbbbbbbbbbb','subject_id':null}"

pub edited_hashed : canonical_json serde (row_object ops edited null) ≡ ok edited_text
unfolding hash_object canonical_json write_value write_items write_fields sort_entries insert_entry
    join_items join_entries entry_text number_to_text text_le codes_le
edited_hashed = refl

null_text : canonical_json serde null ≡ ok "null"
unfolding canonical_json write_value
null_text = refl

pub edited_is_hex :
    is_64_hex "aaaaaaaaaaaaaaaaaaaaaaaaaaaaaaaaaaaaaaaaaaaaaaaaaaaaaaaaaaaaaaaa" ≡ true
unfolding is_64_hex
edited_is_hex = refl

head_of_one : some b64 ≡ or_else (hash_of (last_row (row1 ∷ []))) none
unfolding last_row
head_of_one = refl

abbrev edit : Edited ops (or_else (hash_of (last_row (row1 ∷ []))) none) "original" edited
edit = record {
  hex = edited_is_hex;
  chained = head_of_one;
  hash_of_text = refl;
  payload = null;
  parsed = refl;
  present_text = edited_text;
  hashed = edited_hashed;
  changed = apart "original" edited_text refl;
  payload_text = "null";
  canonical_payload = null_text;
}

digests_differ : NoCollision ops "original" edited_text
digests_differ h = elim (apart (digest "original") (digest edited_text) refl h) [ ]

unrecorded : mutation_of "e2" [] ≡ none
unfolding mutation_of
unrecorded = refl

tampering_found_example :
    (w' : LedgerSequenceVerification) × (verify_ledger_sequence ops
        (row1 ∷ edited ∷ row1 ∷ [])
        none
        []
      ≡ ok w')
    × (w'.first_invalid ≡ some (mismatch ops edited edit))
    × (w'.checked_events ≡ 1)
    × (w'.verified_head_hash ≡ hash_of (last_row (row1 ∷ [])))
tampering_found_example =
    tampering_found ops [] (row1 ∷ []) (row1 ∷ []) none checked_one "original" edited one_verifies
      refl edit digests_differ unrecorded

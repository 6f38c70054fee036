-- ===== src/Tests/Repair.antt =====
-- The repair of a ledger with one event whose hash is no digest
-- (crates/hom-brain/src/db/storage.rs), over operations under which every text has one digest.
use hom_local.Prelude.{
  String, ◌≡◌, refl, sym, ◌∙◌, [], ◌∷◌, none, some, ok, ok-injective, Result, Option,
}
use hom_local.Prelude.Int.{pos}
use hom_local.Json.{
  null, canonical_json, write_value, write_items, write_fields, sort_entries, insert_entry,
  join_items, join_entries, entry_text, number_to_text,
}
use hom_local.Json.Order.{text_le, codes_le}
use hom_local.Json.Laws.{same}
use hom_local.Ledger.{
  LedgerOps, LedgerEventRow, Invalid, fresh, event_hash_not_64_hex, verify_ledger_sequence,
  verify_rows, ledger_row_status, advance, is_64_hex, opt_eq, last_row, hash_object,
}
use hom_local.Ledger.Store.{
  LedgerStore, LedgerReport, verify_ledger_conn, report_without_epoch, active_ledger_epoch, rows_of,
  chain_head, append_ledger_tx, historical_status_of,
}
use hom_local.Ledger.Append.{HexDigests, ReadsBack}
use hom_local.Ledger.Repair.{
  RepairPlan, reopen, already_repaired, repair_plan, repair_payload, invalid_value,
  certificate_value, opened, certify, repair_segmented_ledger,
}
use hom_local.Ledger.Restore.{Restored, repair_restores, repaired_once}
use hom_local.Tests.Json.{serde}
use hom_local.Tests.Ledger.{b64}

abbrev broken : LedgerEventRow
broken = record {
  row_id = pos 1;
  event_id = "e1";
  event_type = "memory.saved";
  actor = "ui";
  subject_id = none;
  payload_json = "null";
  prev_hash = none;
  event_hash = "lost";
  created_at_s = pos 1000;
  ledger_epoch_id = none;
}

abbrev damage : Invalid
damage = record { row = broken; reason = event_hash_not_64_hex "lost" }

abbrev parts : LedgerOps
parts = record {
  serde = serde;
  of_i64 = λ z. 0;
  from_str = λ text. ok null;
  sha256_hex = λ text. b64;
}

abbrev ops : LedgerOps
ops = record parts { from_str = λ text. ok (repair_payload parts "c1" "p1" b64 damage) }

abbrev store : LedgerStore
store = record { events = broken ∷ []; epochs = []; mutations = []; certificates = [] }

abbrev plan : Result String RepairPlan
plan = repair_plan ops (pos 2) (pos 2000) "e2" "p1" "c1" "operator" "damage" store

abbrev planned_store : Result String RepairPlan → LedgerStore
planned_store (ok (reopen t row)) = t
planned_store _ = store

abbrev planned_row : Result String RepairPlan → LedgerEventRow
planned_row (ok (reopen t row)) = row
planned_row _ = broken

is_planned : plan ≡ ok (reopen (planned_store plan) (planned_row plan))
unfolding repair_plan verify_ledger_conn verify_ledger_sequence verify_rows ledger_row_status
    advance is_64_hex opt_eq active_ledger_epoch rows_of report_without_epoch historical_status_of
    last_row certify certificate_value invalid_value opened append_ledger_tx chain_head hash_object
    repair_payload canonical_json write_value write_items write_fields sort_entries insert_entry
    join_items join_entries entry_text number_to_text text_le codes_le
is_planned = refl

abbrev damaged : LedgerReport
damaged = report_without_epoch store (record (fresh ops 1) { first_invalid = some damage })

is_damaged : verify_ledger_conn ops store ≡ ok damaged
unfolding verify_ledger_conn verify_ledger_sequence verify_rows ledger_row_status advance is_64_hex
    active_ledger_epoch rows_of opt_eq
is_damaged = refl

shows_damage : damaged.first_invalid ≡ some damage
unfolding report_without_epoch
shows_damage = refl

some-injective : {i j : Invalid} → Path (Option Invalid) (some i) (some j) → i ≡ j
some-injective h = cc

only_damage :
    (before : LedgerReport) (i : Invalid)
    → verify_ledger_conn ops store ≡ ok before
    → before.first_invalid ≡ some i
    → i ≡ damage
only_damage before i read bad =
    let same : damaged ≡ before = ok-injective (sym is_damaged ∙ read) in
    some-injective (sym (rw (sym same) at bad) ∙ shows_damage)

hex : HexDigests ops
unfolding is_64_hex
hex = λ text. refl

reads_back :
    (before : LedgerReport) (i : Invalid) (text : String)
    → verify_ledger_conn ops store ≡ ok before
    → before.first_invalid ≡ some i
    → ReadsBack ops (repair_payload ops "c1" "p1" (ops.sha256_hex text) i)
unfolding repair_payload invalid_value
reads_back before i text read bad t written =
    (repair_payload parts "c1" "p1" b64 damage, refl, rw (only_damage before i read bad) same)

no_epoch : active_ledger_epoch store.epochs ≡ none
unfolding active_ledger_epoch
no_epoch = refl

unused : rows_of (some "p1") store.events ≡ []
unfolding rows_of opt_eq
unused = refl

repair_restores_example :
    (before : LedgerReport) × ((after : LedgerReport) × ((verify_ledger_conn ops store ≡ ok before)
        × ((verify_ledger_conn ops (planned_store plan) ≡ ok after)
            × Restored ops
                (pos 2)
                (pos 2000)
                "e2"
                "p1"
                "c1"
                "operator"
                "damage"
                store
                (planned_store plan)
                (planned_row plan)
                before
                after)))
repair_restores_example =
    repair_restores ops (pos 2) (pos 2000) "e2" "p1" "c1" "operator" "damage" store
      (planned_store plan) (planned_row plan) hex reads_back no_epoch unused is_planned

repaired_once_example :
    (after : LedgerReport) × ((verify_ledger_conn ops (planned_store plan) ≡ ok after)
      × (repair_segmented_ledger ops
            (pos 3)
            (pos 3000)
            "e3"
            "p2"
            "c2"
            "operator"
            "again"
            (planned_store plan)
          ≡ (planned_store plan, ok (already_repaired after))))
repaired_once_example =
    repaired_once ops (pos 2) (pos 2000) "e2" "p1" "c1" "operator" "damage" store
      (planned_store plan) (planned_row plan) (pos 3) (pos 3000) "e3" "p2" "c2" "operator" "again"
      hex reads_back no_epoch unused is_planned

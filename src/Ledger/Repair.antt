-- ===== src/Ledger/Repair.antt =====
-- `repair_segmented_ledger` (crates/hom-brain/src/db/storage.rs): an invalid history is kept as it
-- is, certified, and a new epoch goes on from the certificate's hash. The row id, the ids and the
-- clock are arguments; a failed transaction leaves the store as it is.
use hom_local.Prelude.{String, [], ◌∷◌, ◌++◌, none, some, Result, ok, err, ◌>>=◌}
use hom_local.Prelude.Int.{ℤ, pos}
use hom_local.Json.{Value, string, number, object, end, field, Fields, canonical_json}
use hom_local.Ledger.{
  LedgerOps, LedgerEventRow, Invalid, InvalidReason, event_hash_not_64_hex, prev_hash_mismatch,
  payload_json_invalid, event_hash_mismatch, opt_string,
}
use hom_local.Ledger.Store.{LedgerStore, LedgerReport, append_ledger_tx, verify_ledger_conn}

pub data RepairOutcome : Type 0 where
  nothing_invalid : LedgerReport → RepairOutcome
  already_repaired : LedgerReport → RepairOutcome
  repaired : LedgerEventRow → LedgerReport → RepairOutcome

-- What the transaction leads to: nothing to do, or the store with the new epoch and its first event
pub data RepairPlan : Type 0 where
  keep : RepairOutcome → RepairPlan
  reopen : LedgerStore → LedgerEventRow → RepairPlan

module _ (ops : LedgerOps) where
  abbrev Json : Type 0
  Json = Value ops.serde.Number

  abbrev JsonFields : Type 0
  JsonFields = Fields ops.serde.Number

  abbrev reason_fields : InvalidReason → JsonFields
  reason_fields (event_hash_not_64_hex observed) =
      field "reason" (string "event_hash_not_64_hex")
        (field "observed_event_hash" (string observed) end)
  reason_fields (prev_hash_mismatch observed expected) =
      field "reason" (string "prev_hash_mismatch") (
        field "observed_prev_hash" (opt_string ops observed)
          (field "expected_prev_hash" (opt_string ops expected) end))
  reason_fields (payload_json_invalid error) =
      field "reason" (string "payload_json_invalid") (field "error" (string error) end)
  reason_fields (event_hash_mismatch observed expected) =
      field "reason" (string "event_hash_mismatch") (
        field "observed_event_hash" (string observed)
          (field "expected_event_hash" (string expected) end))

  -- The `reason` object of a refused row
  unfoldable pub invalid_value : Invalid → Json
  invalid_value i = object (
      field "row_id" (number (ops.of_i64 i.row.row_id)) (
        field "event_id" (string i.row.event_id) (
          field "event_type" (string i.row.event_type) (
            field "ledger_epoch_id" (opt_string ops i.row.ledger_epoch_id)
              (reason_fields i.reason)))))

  unfoldable pub certificate_value : String → String → Invalid → LedgerReport → ℤ → Json
  unfolding invalid_value
  certificate_value actor reason i before now = object (
      field "kind" (string "ledger_segmented_repair_certificate") (
        field "policy"
          (string
            "preserve invalid historical rows; start a new current epoch anchored to this certificate")
          (field "actor" (string actor) (
            field "reason" (string reason) (
              field "historical_first_invalid" (invalid_value i) (
                field "verified_head_hash" (opt_string ops before.verified_head_hash) (
                  field "observed_head_hash" (opt_string ops before.head_hash) (
                    field "db_total_events" (number (ops.of_i64 (pos before.total_events))) (
                      field "algorithm"
                        (string
                          "sha256(canonical_json({event_id,event_type,actor,subject_id,payload,prev_hash,created_at_s}))")
                        (field "created_at_s" (number (ops.of_i64 now)) end))))))))))

  abbrev pub diagnostic_value : String → Json
  diagnostic_value certificate_hash = object (
      field "source" (string "ledger.repair_segmented") (
        field "historical_status" (string "invalid_preserved")
          (field "certificate_hash" (string certificate_hash) end)))

  unfoldable pub repair_payload : String → String → String → Invalid → Json
  unfolding invalid_value
  repair_payload certificate_id epoch_id certificate_hash i = object (
      field "repair_certificate_id" (string certificate_id) (
        field "active_epoch_id" (string epoch_id) (
          field "certificate_hash" (string certificate_hash) (
            field "historical_first_invalid" (invalid_value i)
              (field "policy" (string "segmented_repair_no_rewrite") end)))))

  module _ (row_id now : ℤ) (event_id epoch_id certificate_id actor reason : String) where
    -- The tables with the new epoch and its certificate
    unfoldable pub opened : String → LedgerStore → LedgerStore
    opened certificate_hash s = record s {
      epochs =
          s.epochs
          ++ (record {
            id = epoch_id;
            status = "active";
            created_at_s = now;
            anchor_hash = some certificate_hash;
            repair_certificate_id = some certificate_id;
          }
              ∷ []);
      certificates =
          s.certificates
          ++ (record { id = certificate_id; active_epoch_id = epoch_id; created_at_s = now } ∷ []);
    }

    -- The transaction, once the report shows an invalid row and no certificate
    unfoldable pub certify : Invalid → LedgerReport → LedgerStore → Result String RepairPlan
    unfolding certificate_value repair_payload opened append_ledger_tx invalid_value
    certify i before s = do
      certificate_json ← canonical_json ops.serde (certificate_value actor reason i before now)
      diagnostic ← canonical_json ops.serde (diagnostic_value (ops.sha256_hex certificate_json))
      preserved ← canonical_json ops.serde (invalid_value i)
      appended ←
          append_ledger_tx ops row_id event_id "ledger.repair_segmented" actor (some certificate_id)
            (repair_payload certificate_id epoch_id (ops.sha256_hex certificate_json) i) now
            (opened (ops.sha256_hex certificate_json) s)
      ok (reopen appended.0 appended.1)

    unfoldable pub repair_plan : LedgerStore → Result String RepairPlan
    unfolding verify_ledger_conn certify
    repair_plan s = do
      before ← verify_ledger_conn ops s
      elim before.first_invalid [
        | none ↦ ok (keep (nothing_invalid before))
        | some i ↦ elim before.repair_certificate [
          | some certificate ↦ ok (keep (already_repaired before))
          | none ↦ certify i before s
        ]
      ]

    -- The report on what is left: an error of it comes after the transaction is committed.
    unfoldable pub repair_segmented_ledger : LedgerStore → LedgerStore × Result String RepairOutcome
    unfolding repair_plan verify_ledger_conn
    repair_segmented_ledger s = elim (repair_plan s) [
      | err e ↦ (s, err e)
      | ok (keep outcome) ↦ (s, ok outcome)
      | ok (reopen t row) ↦ (t, do after ← verify_ledger_conn ops t; ok (repaired row after))
    ]

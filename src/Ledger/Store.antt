-- ===== src/Ledger/Store.antt =====
-- The ledger's tables, `append_ledger_tx` and `verify_ledger_conn`
-- (crates/hom-brain/src/db/storage.rs): epochs, repair certificates and the report.
use hom_local.Prelude.{
  ℕ, ◌+◌, String, Bool, true, false, not, ◌&&◌, List, [], ◌∷◌, ◌++◌, Option, none, some, str_eq,
  ltb, length, Result, ok, ◌>>=◌, if◌then◌else◌,
}
use hom_local.Prelude.Int.{ℤ, ltb_ℤ}
use hom_local.Json.{Value, canonical_json}
use hom_local.Ledger.{
  LedgerOps, LedgerEventRow, LedgerEpochRow, MutationRecord, Invalid, SelfModified,
  LedgerSequenceVerification, opt_eq, or_else, last_row, hash_of, hash_object,
  verify_ledger_sequence,
}

-- A row of `ledger_repair_certificates`, as far as the verification reads it
pub record RepairCertificate : Type 0 where
  pub id : String
  pub active_epoch_id : String
  pub created_at_s : ℤ

-- The ledger's tables
pub record LedgerStore : Type 0 where
  pub events : List LedgerEventRow
  pub epochs : List LedgerEpochRow
  pub mutations : List MutationRecord
  pub certificates : List RepairCertificate

-- `ORDER BY created_at_s DESC LIMIT 1` among the active epochs. SQL leaves open which of two rows
-- of one time comes first; here it is the earlier row.
unfoldable pub active_ledger_epoch : List LedgerEpochRow → Option LedgerEpochRow
active_ledger_epoch [] = none
active_ledger_epoch (e ∷ rest) =
    let later = active_ledger_epoch rest in
    if str_eq e.status "active"
    then elim later [
      | none ↦ some e
      | some l ↦ if ltb_ℤ e.created_at_s l.created_at_s then some l else some e
    ]
    else later

unfoldable pub load_repair_certificate : List RepairCertificate → String → Option RepairCertificate
load_repair_certificate [] id = none
load_repair_certificate (c ∷ rest) id =
    let later = load_repair_certificate rest id in
    if str_eq c.active_epoch_id id
    then elim later [
      | none ↦ some c
      | some l ↦ if ltb_ℤ c.created_at_s l.created_at_s then some l else some c
    ]
    else later

-- The rows of one epoch, or those of none
unfoldable pub rows_of : Option String → List LedgerEventRow → List LedgerEventRow
unfolding opt_eq
rows_of epoch [] = []
rows_of epoch (row ∷ rows) =
    let rest = rows_of epoch rows in if opt_eq row.ledger_epoch_id epoch then row ∷ rest else rest

-- The epoch and the previous hash of the next event
unfoldable pub chain_head : LedgerStore → Option String × Option String
unfolding active_ledger_epoch rows_of last_row
chain_head s = elim (active_ledger_epoch s.epochs) [
  | some e ↦ (some e.id, or_else (hash_of (last_row (rows_of (some e.id) s.events))) e.anchor_hash)
  | none ↦ (none, hash_of (last_row s.events))
]

-- The inserted row
abbrev pub new_row :
    ℤ
    → String
    → String
    → String
    → Option String
    → ℤ
    → String
    → String
    → LedgerStore
    → LedgerEventRow
new_row row_id event_id event_type actor subject_id created_at_s payload_json event_hash s =
    record {
      row_id = row_id;
      event_id = event_id;
      event_type = event_type;
      actor = actor;
      subject_id = subject_id;
      payload_json = payload_json;
      prev_hash = (chain_head s).1;
      event_hash = event_hash;
      created_at_s = created_at_s;
      ledger_epoch_id = (chain_head s).0;
    }

module _ (ops : LedgerOps) where
  -- `append_ledger_tx`: `row_id` and `event_id` are what the table and `Uuid::new_v4` give.
  unfoldable pub append_ledger_tx :
      ℤ
      → String
      → String
      → String
      → Option String
      → Value ops.serde.Number
      → ℤ
      → LedgerStore
      → Result String (LedgerStore × LedgerEventRow)
  unfolding chain_head hash_object
  append_ledger_tx row_id event_id event_type actor subject_id payload created_at_s s = do
    payload_json ← canonical_json ops.serde payload
    hash_input ←
        canonical_json ops.serde (
          hash_object ops event_id event_type actor subject_id payload (chain_head s).1
            created_at_s)
    let row =
          new_row row_id event_id event_type actor subject_id created_at_s payload_json
            (ops.sha256_hex hash_input) s in
        ok (record s { events = s.events ++ (row ∷ []) }, row)

-- `verify_ledger_conn`'s report
pub record LedgerReport : Type 0 where
  pub valid : Bool
  pub pristine : Bool
  pub self_modified_events : List SelfModified
  pub all_history_valid : Bool
  pub total_events : ℕ
  pub checked_events : ℕ
  pub head_hash : Option String
  pub verified_head_hash : Option String
  pub last_verified_event_id : Option String
  pub first_invalid : Option Invalid
  pub historical_status : String
  pub historical_segment : LedgerSequenceVerification
  pub current_epoch : Option (LedgerEpochRow × LedgerSequenceVerification)
  pub repair_certificate : Option RepairCertificate

abbrev pub is_none : {A : Type 0} → Option A → Bool
is_none none = true
is_none (some a) = false

abbrev pub no_rows : List SelfModified → Bool
no_rows [] = true
no_rows (x ∷ l) = false

unfoldable pub historical_status_of : Option Invalid → Option RepairCertificate → String
historical_status_of none certificate = "valid"
historical_status_of (some i) (some c) = "invalid_preserved"
historical_status_of (some i) none = "invalid_uncertified"

-- The report of a ledger without an active epoch
unfoldable pub report_without_epoch : LedgerStore → LedgerSequenceVerification → LedgerReport
unfolding historical_status_of last_row
report_without_epoch s historical = record {
  valid = is_none historical.first_invalid;
  pristine = is_none historical.first_invalid && no_rows historical.self_modified_events;
  self_modified_events = historical.self_modified_events;
  all_history_valid = is_none historical.first_invalid;
  total_events = length s.events;
  checked_events = historical.checked_events;
  head_hash = hash_of (last_row s.events);
  verified_head_hash = historical.verified_head_hash;
  last_verified_event_id = historical.last_verified_event_id;
  first_invalid = historical.first_invalid;
  historical_status = historical_status_of historical.first_invalid none;
  historical_segment = historical;
  current_epoch = none;
  repair_certificate = none;
}

-- The report of a ledger with an active epoch, whose rows are verified from its anchor
unfoldable pub report_with_epoch :
    LedgerStore
    → LedgerEpochRow
    → LedgerSequenceVerification
    → LedgerSequenceVerification
    → LedgerReport
unfolding historical_status_of last_row load_repair_certificate
report_with_epoch s epoch historical current =
    let certificate = load_repair_certificate s.certificates epoch.id in
    let status = historical_status_of historical.first_invalid certificate in
    let first_invalid = or_else current.first_invalid historical.first_invalid in
    let self_modified = historical.self_modified_events ++ current.self_modified_events in
    record {
      valid =
          (is_none current.first_invalid && ltb 0 current.total_events)
          && not (str_eq status "invalid_uncertified");
      pristine = is_none first_invalid && no_rows self_modified;
      self_modified_events = self_modified;
      all_history_valid = is_none historical.first_invalid && is_none current.first_invalid;
      total_events = length s.events;
      checked_events = historical.checked_events + current.checked_events;
      head_hash = hash_of (last_row s.events);
      verified_head_hash = or_else current.verified_head_hash historical.verified_head_hash;
      last_verified_event_id =
          or_else current.last_verified_event_id historical.last_verified_event_id;
      first_invalid = first_invalid;
      historical_status = status;
      historical_segment = historical;
      current_epoch = some (epoch, current);
      repair_certificate = certificate;
    }

module _ (ops : LedgerOps) where
  unfoldable pub verify_ledger_conn : LedgerStore → Result String LedgerReport
  unfolding verify_ledger_sequence active_ledger_epoch rows_of report_with_epoch
      report_without_epoch
  verify_ledger_conn s = do
    historical ← verify_ledger_sequence ops (rows_of none s.events) none s.mutations
    elim (active_ledger_epoch s.epochs) [
      | none ↦ ok (report_without_epoch s historical)
      | some e ↦ do
        current ←
            verify_ledger_sequence ops (rows_of (some e.id) s.events) e.anchor_hash s.mutations
        ok (report_with_epoch s e historical current)
    ]

-- ===== src/Ledger.antt =====
-- The tamper-evident ledger (crates/hom-brain/src/db/storage.rs: `append_ledger_tx`,
-- `record_mutation_tx`, `load_mutation_records`, `ledger_row_status`, `verify_ledger_sequence` and
-- `verify_ledger_conn`). The tables are lists in the order of their row ids. serde_json and
-- SHA-256 are parameters.
pub mod Store
pub mod Chain
pub mod Mutation
pub mod Tamper
pub mod Append
pub mod Sound
pub mod Repair
pub mod Restore
pub mod Written
use hom_local.Prelude.{
  ℕ, ◌+◌, String, Bool, true, false, not, ◌&&◌, ◌||◌, List, [], ◌∷◌, ◌++◌, Option, none, some,
  str_eq, ◌==◌, leb, ltb, length, Result, ok, err, ◌>>=◌, if◌then◌else◌, codes,
}
use hom_local.Prelude.Int.{ℤ, ltb_ℤ}
use hom_local.Json.{Serde, Value, null, string, number, object, end, field, canonical_json}

-- What the ledger uses of serde_json and of crates/hom-shared/src/crypto.rs.
pub record LedgerOps : Type 1 where
  pub serde : Serde
  pub of_i64 : ℤ → serde.Number
  pub from_str : String → Result String (Value serde.Number)
  pub sha256_hex : String → String

-- A row of `ledger_events`
pub record LedgerEventRow : Type 0 where
  pub row_id : ℤ
  pub event_id : String
  pub event_type : String
  pub actor : String
  pub subject_id : Option String
  pub payload_json : String
  pub prev_hash : Option String
  pub event_hash : String
  pub created_at_s : ℤ
  pub ledger_epoch_id : Option String

-- A row of `ledger_epochs`
pub record LedgerEpochRow : Type 0 where
  pub id : String
  pub status : String
  pub created_at_s : ℤ
  pub anchor_hash : Option String
  pub repair_certificate_id : Option String

-- A row of `ledger_mutation_events`, as far as the verification reads it
pub record MutationRecord : Type 0 where
  pub mutation_id : String
  pub target_ledger_event_id : String
  pub mutation_type : String
  pub original_event_hash : String
  pub post_mutation_payload_hash : String

-- Why a row is refused, with what is observed and expected
pub data InvalidReason : Type 0 where
  event_hash_not_64_hex : String → InvalidReason
  prev_hash_mismatch : Option String → Option String → InvalidReason
  payload_json_invalid : String → InvalidReason
  event_hash_mismatch : String → String → InvalidReason

-- The `reason` object of a refused row
pub record Invalid : Type 0 where
  pub row : LedgerEventRow
  pub reason : InvalidReason

-- The `detail` object of a row that differs from its hash by a recorded mutation
pub record SelfModified : Type 0 where
  pub row : LedgerEventRow
  pub expected_event_hash : String
  pub mutation_id : String
  pub mutation_type : String

pub data LedgerRowStatus : Type 0 where
  valid : LedgerRowStatus
  self_modified_preserved : SelfModified → LedgerRowStatus
  invalid : Invalid → LedgerRowStatus

pub record LedgerSequenceVerification : Type 0 where
  pub total_events : ℕ
  pub checked_events : ℕ
  pub verified_head_hash : Option String
  pub last_verified_event_id : Option String
  pub first_invalid : Option Invalid
  pub self_modified_events : List SelfModified

-- `load_mutation_records`: the record of an event is the first that names it.
unfoldable pub mutation_of : String → List MutationRecord → Option MutationRecord
mutation_of id [] = none
mutation_of id (m ∷ rest) =
    if str_eq m.target_ledger_event_id id then some m else mutation_of id rest

abbrev is_hexdigit : ℕ → Bool
is_hexdigit c =
    (leb b'0' c && leb c b'9') || ((leb b'a' c && leb c b'f') || (leb b'A' c && leb c b'F'))

all_hex : List ℕ → Bool
all_hex [] = true
all_hex (c ∷ s) = is_hexdigit c && all_hex s

-- `len() == 64` counts bytes; a text of hexadecimal digits has one byte to a character.
unfoldable pub is_64_hex : String → Bool
unfolding all_hex
is_64_hex s = (length (codes s) == 64) && all_hex (codes s)

unfoldable pub opt_eq : Option String → Option String → Bool
opt_eq none none = true
opt_eq (some a) (some b) = str_eq a b
opt_eq _ _ = false

-- `Option::or`
abbrev pub or_else : {A : Type 0} → Option A → Option A → Option A
or_else (some a) o = some a
or_else none o = o

unfoldable pub last_row : {A : Type 0} → List A → Option A
last_row [] = none
last_row (x ∷ rest) = or_else (last_row rest) (some x)

abbrev pub hash_of : Option LedgerEventRow → Option String
hash_of none = none
hash_of (some row) = some row.event_hash

module _ (ops : LedgerOps) where
  abbrev pub opt_string : Option String → Value ops.serde.Number
  opt_string none = null
  opt_string (some s) = string s

  -- The hashed object of an event
  unfoldable pub hash_object :
      String
      → String
      → String
      → Option String
      → Value ops.serde.Number
      → Option String
      → ℤ
      → Value ops.serde.Number
  hash_object event_id event_type actor subject_id payload prev_hash created_at_s = object (
      field "event_id" (string event_id) (
        field "event_type" (string event_type) (
          field "actor" (string actor) (
            field "subject_id" (opt_string subject_id) (
              field "payload" payload (
                field "prev_hash" (opt_string prev_hash)
                  (field "created_at_s" (number (ops.of_i64 created_at_s)) end)))))))

  abbrev pub row_object : LedgerEventRow → Value ops.serde.Number → Value ops.serde.Number
  row_object row payload =
      hash_object row.event_id row.event_type row.actor row.subject_id payload row.prev_hash
        row.created_at_s

  abbrev refused : LedgerEventRow → InvalidReason → LedgerRowStatus
  refused row reason = invalid (record { row = row; reason = reason })

  -- The row's hash is not that of its content: a recorded mutation must account for it.
  unfoldable pub mutated_status :
      LedgerEventRow → String → String → Option MutationRecord → LedgerRowStatus
  mutated_status row expected payload_hash none =
      refused row (event_hash_mismatch row.event_hash expected)
  mutated_status row expected payload_hash (some m) =
      if str_eq m.original_event_hash row.event_hash
        && str_eq m.post_mutation_payload_hash payload_hash
      then self_modified_preserved (record {
        row = row;
        expected_event_hash = expected;
        mutation_id = m.mutation_id;
        mutation_type = m.mutation_type;
      })
      else refused row (event_hash_mismatch row.event_hash expected)

  unfoldable pub content_status :
      LedgerEventRow → List MutationRecord → Value ops.serde.Number → Result String LedgerRowStatus
  unfolding mutated_status
  content_status row mutations payload = do
    hash_input ← canonical_json ops.serde (row_object row payload)
    if str_eq row.event_hash (ops.sha256_hex hash_input) then ok valid else do
      text ← canonical_json ops.serde payload
      ok (
          mutated_status row (ops.sha256_hex hash_input) (ops.sha256_hex text)
            (mutation_of row.event_id mutations))

  unfoldable pub ledger_row_status :
      LedgerEventRow → Option String → List MutationRecord → Result String LedgerRowStatus
  unfolding content_status
  ledger_row_status row expected mutations =
      if not (is_64_hex row.event_hash)
      then ok (refused row (event_hash_not_64_hex row.event_hash))
      else if not (opt_eq row.prev_hash expected)
      then ok (refused row (prev_hash_mismatch row.prev_hash expected))
      else elim (ops.from_str row.payload_json) [
        | err e ↦ ok (refused row (payload_json_invalid e))
        | ok payload ↦ content_status row mutations payload
      ]

  abbrev pub counted : LedgerEventRow → LedgerSequenceVerification → LedgerSequenceVerification
  counted row v = record v {
    checked_events = v.checked_events + 1;
    last_verified_event_id = some row.event_id;
    verified_head_hash = some row.event_hash;
  }

  -- The arms of the loop's match: what goes on after a row, or the end of the loop
  unfoldable pub advance :
      Result String LedgerRowStatus
      → LedgerEventRow
      → LedgerSequenceVerification
      → (LedgerSequenceVerification → Result String LedgerSequenceVerification)
      → Result String LedgerSequenceVerification
  advance (err e) row v continue = err e
  advance (ok valid) row v continue = continue (counted row v)
  advance (ok (self_modified_preserved detail)) row v continue =
      continue
        (record (counted row v) { self_modified_events = v.self_modified_events ++ (detail ∷ []) })
  advance (ok (invalid reason)) row v continue = ok (record v { first_invalid = some reason })

  -- The loop over the rows, from the previous hash that the next row must have
  unfoldable pub verify_rows :
      List LedgerEventRow
      → Option String
      → List MutationRecord
      → LedgerSequenceVerification
      → Result String LedgerSequenceVerification
  unfolding advance
  verify_rows [] expected mutations v = ok v
  verify_rows (row ∷ rows) expected mutations v =
      advance (ledger_row_status row expected mutations) row v
        (λ next. verify_rows rows (some row.event_hash) mutations next)

  abbrev pub fresh : ℕ → LedgerSequenceVerification
  fresh total = record {
    total_events = total;
    checked_events = 0;
    verified_head_hash = none;
    last_verified_event_id = none;
    first_invalid = none;
    self_modified_events = [];
  }

  unfoldable pub verify_ledger_sequence :
      List LedgerEventRow
      → Option String
      → List MutationRecord
      → Result String LedgerSequenceVerification
  unfolding verify_rows
  verify_ledger_sequence rows starting mutations =
      verify_rows rows starting mutations (fresh (length rows))

-- ===== src/Ledger/Written.antt =====
-- When `append_ledger_tx` (crates/hom-brain/src/db/storage.rs) takes an event: both texts that it
-- writes are within the depth limit of the canonical JSON.
use hom_local.Prelude.{String, Option, none, some, ◌≡◌, refl, Result-cases, inl, inr, ok}
use hom_local.Prelude.Int.{ℤ}
use hom_local.Json.{Value, number, number_to_text, canonical_json, write_value, write_fields}
use hom_local.Json.Written.{
  QuotesAll, IsWritten, object-IsWritten, string-IsWritten, null-IsWritten,
}
use hom_local.Ledger.{LedgerOps, LedgerEventRow, hash_object, opt_string}
use hom_local.Ledger.Store.{LedgerStore, append_ledger_tx, chain_head}

module _ (ops : LedgerOps) where
  -- serde_json writes every i64.
  abbrev pub WritesTimes : Type 0
  WritesTimes = (z : ℤ) → (t : String) × (number_to_text ops.serde (ops.of_i64 z) ≡ ok t)

  number-IsWritten : (z : ℤ) → WritesTimes → IsWritten ops.serde 1 (number (ops.of_i64 z))
  unfolding write_value
  number-IsWritten z times = times z

  optional-IsWritten :
      (s : Option String) → QuotesAll ops.serde → IsWritten ops.serde 1 (opt_string ops s)
  optional-IsWritten none quotes = null-IsWritten ops.serde 1 refl
  optional-IsWritten (some s) quotes = string-IsWritten ops.serde 1 s quotes refl

  hash_object-IsWritten :
      (event_id event_type actor : String) (subject_id : Option String)
      (payload : Value ops.serde.Number) (prev_hash : Option String) (created_at_s : ℤ)
      → QuotesAll ops.serde
      → WritesTimes
      → IsWritten ops.serde 1 payload
      → IsWritten ops.serde 0
          (hash_object ops event_id event_type actor subject_id payload prev_hash created_at_s)
  unfolding hash_object write_fields
  hash_object-IsWritten event_id event_type actor subject_id payload prev_hash created_at_s quotes
        times inner =
      object-IsWritten ops.serde 0
        (hash_object ops event_id event_type actor subject_id payload prev_hash created_at_s) quotes
        refl
        (
          string-IsWritten ops.serde 1 event_id quotes refl,
          (
            string-IsWritten ops.serde 1 event_type quotes refl,
            (
              string-IsWritten ops.serde 1 actor quotes refl,
              (
                optional-IsWritten subject_id quotes,
                (
                  inner,
                  (optional-IsWritten prev_hash quotes, (number-IsWritten created_at_s times, tt)),
                ),
              ),
            ),
          ),
        )

  -- An event is taken when its payload is written, at the top and one level down.
  pub append_ledger_tx-returns :
      (row_id created_at_s : ℤ) (event_id event_type actor : String) (subject_id : Option String)
      (payload : Value ops.serde.Number) (s : LedgerStore)
      → QuotesAll ops.serde
      → WritesTimes
      → IsWritten ops.serde 0 payload
      → IsWritten ops.serde 1 payload
      → (done : LedgerStore × LedgerEventRow) × (append_ledger_tx ops row_id event_id event_type
            actor subject_id payload created_at_s s
          ≡ ok done)
  unfolding append_ledger_tx canonical_json
  append_ledger_tx-returns row_id created_at_s event_id event_type actor subject_id payload s quotes
        times top inner =
      let (text, hashed) =
        hash_object-IsWritten event_id event_type actor subject_id payload (chain_head s).1
          created_at_s quotes times inner in
      elim (Result-cases
        (append_ledger_tx ops row_id event_id event_type actor subject_id payload created_at_s s)) [
          | inl done ↦ done
          | inr (e, failed) ↦ cc (rw (append_ledger_tx, canonical_json, top.1, hashed) at failed)
        ]

-- ===== src/Ledger/Tamper.antt =====
-- What `verify_ledger_sequence` (crates/hom-brain/src/db/storage.rs) reports of an event whose
-- content was changed under an unchanged hash.
use hom_local.Ledger.{
  LedgerOps, LedgerEventRow, MutationRecord, LedgerSequenceVerification, Invalid,
  event_hash_mismatch, invalid, mutation_of, is_64_hex, opt_eq, or_else, last_row, hash_of,
  row_object, mutated_status, content_status, ledger_row_status, verify_rows, fresh,
  verify_ledger_sequence,
}
use hom_local.Ledger.Chain.{opt_eq_refl, verify_rows-append, verify_rows-total}
use hom_local.Ledger.Sound.{sequence_sound}
use hom_local.Json.{Value, canonical_json}
use hom_local.Prelude.{
  String, true, List, ◌∷◌, ◌++◌, Option, none, some, str_eq, eq_iff, length, ◌≡◌, ◌≢◌, refl, ◌∙◌,
  inl, inr, ok, Bool-cases,
}

module _ (ops : LedgerOps) where
  -- A row whose content does not give the text that its hash was made of.
  pub record Edited (p : Option String) (text : String) (row : LedgerEventRow) : Type 0 where
    pub hex : is_64_hex row.event_hash ≡ true
    pub chained : row.prev_hash ≡ p
    pub hash_of_text : row.event_hash ≡ ops.sha256_hex text
    pub payload : Value ops.serde.Number
    pub parsed : ops.from_str row.payload_json ≡ ok payload
    pub present_text : String
    pub hashed : canonical_json ops.serde (row_object ops row payload) ≡ ok present_text
    pub changed : text ≢ present_text
    pub payload_text : String
    pub canonical_payload : canonical_json ops.serde payload ≡ ok payload_text

  abbrev pub mismatch :
      {p : Option String} {text : String} (row : LedgerEventRow) → Edited p text row → Invalid
  mismatch row e = record {
    row = row;
    reason = event_hash_mismatch row.event_hash (ops.sha256_hex e.present_text);
  }

  abbrev pub NoCollision : String → String → Type 0
  NoCollision s t = ops.sha256_hex s ≡ ops.sha256_hex t → s ≡ t

  module _ (mutations : List MutationRecord) (p : Option String) (text : String)
      (row : LedgerEventRow) where
    Edited-invalid :
        (e : Edited p text row)
        → NoCollision text e.present_text
        → mutation_of row.event_id mutations ≡ none
        → ledger_row_status ops row p mutations ≡ ok (invalid (mismatch row e))
    unfolding ledger_row_status content_status mutated_status
    Edited-invalid e distinct unrecorded =
        elim (Bool-cases (str_eq row.event_hash (ops.sha256_hex e.present_text))) [
          | inl f ↦
              elim (e.changed (
                distinct (
                  rw e.hash_of_text at
                    ((eq_iff row.event_hash (ops.sha256_hex e.present_text)).0 f)))) [ ]
          | inr f ↦
              let same : opt_eq row.prev_hash p ≡ true = rw e.chained (opt_eq_refl p) in
              rw (e.hex, same, e.parsed, e.hashed, f, e.canonical_payload, unrecorded) refl
        ]

  -- Let the rows before an event verify without an invalid row, and let the event's hash be that
  -- of another text than its present content gives, without a collision of the two and without a
  -- mutation recorded for the event. Whatever follows, the verification counts the rows before it,
  -- leaves the verified head at the last of them, and reports the event as the first invalid row,
  -- for a hash mismatch.
  pub tampering_found :
      (mutations : List MutationRecord) (before after : List LedgerEventRow)
      (starting : Option String) (w : LedgerSequenceVerification) (text : String)
      (row : LedgerEventRow)
      → verify_ledger_sequence ops before starting mutations ≡ ok w
      → w.first_invalid ≡ none
      → (e : Edited (or_else (hash_of (last_row before)) starting) text row)
      → NoCollision text e.present_text
      → mutation_of row.event_id mutations ≡ none
      → (w' : LedgerSequenceVerification) × (verify_ledger_sequence ops
            (before ++ (row ∷ after))
            starting
            mutations
          ≡ ok w')
        × (w'.first_invalid ≡ some (mismatch row e))
        × (w'.checked_events ≡ length before)
        × (w'.verified_head_hash ≡ hash_of (last_row before))
  unfolding verify_ledger_sequence verify_rows
  tampering_found mutations before after starting w text row h f e distinct unrecorded =
      let n = length (before ++ (row ∷ after)) in
      let w' = record w { total_events = n } in
      let (c, checked, t, head) = sequence_sound ops mutations before starting w h f in
      (
        record w' { first_invalid = some (mismatch row e) },
        verify_rows-append ops mutations before (row ∷ after) starting (fresh ops n) w'
              (verify_rows-total ops mutations n before starting (fresh ops (length before)) w h) f
            ∙ rw
                (Edited-invalid mutations (or_else (hash_of (last_row before)) starting) text row e
                  distinct unrecorded)
                refl,
        refl,
        checked,
        head,
      )

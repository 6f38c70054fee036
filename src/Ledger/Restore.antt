-- ===== src/Ledger/Restore.antt =====
-- What a repair of the ledger gives (crates/hom-brain/src/db/storage.rs, `repair_segmented_ledger`).
use mathlib.Core.Path.{subst}
use hom_local.Prelude.{
  ◌+◌, String, true, List, [], ◌∷◌, ◌++◌, Option, none, some, str_eq, ◌≡◌, refl, sym, ap, ◌∙◌,
  Result, ok, inl, inr, Option-cases, Bool-cases, Result-cases, ok-injective,
}
use hom_local.Prelude.Int.{ℤ, ltb_ℤ}
use hom_local.Json.{Value, canonical_json}
use hom_local.Ledger.{
  LedgerOps, LedgerEventRow, LedgerEpochRow, Invalid, valid, or_else, last_row, hash_of,
  ledger_row_status, verify_ledger_sequence, verify_rows, counted, fresh,
}
use hom_local.Ledger.Store.{
  RepairCertificate, LedgerStore, LedgerReport, active_ledger_epoch, load_repair_certificate,
  rows_of, chain_head, append_ledger_tx, verify_ledger_conn, report_with_epoch,
  report_without_epoch, historical_status_of,
}
use hom_local.Ledger.Chain.{opt_eq_refl, str_eq_refl}
use hom_local.Ledger.Append.{
  HexDigests, ReadsBack, rows_of-append, rows_of-append_other, other_epoch, Sealed-valid,
  append_ledger_tx-Sealed, sequence_append,
}
use hom_local.Ledger.Repair.{
  RepairPlan, reopen, already_repaired, certificate_value, diagnostic_value, invalid_value,
  repair_payload, opened, certify, repair_plan, repair_segmented_ledger,
}

active-append :
    (epochs : List LedgerEpochRow) (e : LedgerEpochRow)
    → str_eq e.status "active" ≡ true
    → active_ledger_epoch epochs ≡ none
    → active_ledger_epoch (epochs ++ (e ∷ [])) ≡ some e
unfolding active_ledger_epoch
active-append [] e live h = rw live refl
active-append (f ∷ epochs) e live h = elim (Bool-cases (str_eq f.status "active")) [
  | inr closed ↦ rw (closed, active-append epochs e live (rw closed at h)) refl
  | inl live_too ↦ elim (Option-cases (active_ledger_epoch epochs)) [
    | inl missing ↦ cc (rw (live_too, missing) at h)
    | inr (l, found) ↦ elim (Bool-cases (ltb_ℤ f.created_at_s l.created_at_s)) [
      | inl older ↦ cc (rw (live_too, found, older) at h)
      | inr newer ↦ cc (rw (live_too, found, newer) at h)
    ]
  ]
]

certificate-append :
    (certificates : List RepairCertificate) (c : RepairCertificate) (id : String)
    → str_eq c.active_epoch_id id ≡ true
    → (d : RepairCertificate) × (load_repair_certificate (certificates ++ (c ∷ [])) id ≡ some d)
unfolding load_repair_certificate
certificate-append [] c id same = (c, rw same refl)
certificate-append (b ∷ certificates) c id same =
    let (d, found) = certificate-append certificates c id same in
    elim (Bool-cases (str_eq b.active_epoch_id id)) [
      | inr other ↦ (d, rw (other, found) refl)
      | inl also ↦ elim (Bool-cases (ltb_ℤ b.created_at_s d.created_at_s)) [
        | inl older ↦ (d, rw (also, found, older) refl)
        | inr newer ↦ (b, rw (also, found, newer) refl)
      ]
    ]

module _ (ops : LedgerOps) (row_id now : ℤ)
    (event_id epoch_id certificate_id actor reason : String) where
  abbrev plan : LedgerStore → Result String RepairPlan
  plan = repair_plan ops row_id now event_id epoch_id certificate_id actor reason

  abbrev with_epoch : String → LedgerStore → LedgerStore
  with_epoch = opened ops row_id now event_id epoch_id certificate_id actor reason

  abbrev payload : String → Invalid → Value ops.serde.Number
  payload = repair_payload ops certificate_id epoch_id

  -- The event that a certificate is followed by, under the certificate's hash
  abbrev Follows : Invalid → String → LedgerStore → LedgerStore → LedgerEventRow → Type 0
  Follows i hash s t row =
      append_ledger_tx ops row_id event_id "ledger.repair_segmented" actor (some certificate_id)
        (payload hash i) now (with_epoch hash s)
      ≡ ok (t, row)

  certify-Follows :
      (i : Invalid) (before : LedgerReport) (s t : LedgerStore) (row : LedgerEventRow)
      → certify ops row_id now event_id epoch_id certificate_id actor reason i before s
        ≡ ok (reopen t row)
      → (text : String) × Follows i (ops.sha256_hex text) s t row
  unfolding certify
  certify-Follows i before s t row h =
      elim (Result-cases
        (canonical_json ops.serde (certificate_value ops actor reason i before now))) [
          | inr (e, failed) ↦ cc (rw failed at h)
          | inl (text, written) ↦
              let hash = ops.sha256_hex text in
              elim (Result-cases (canonical_json ops.serde (diagnostic_value ops hash))) [
                | inr (e, failed) ↦ cc (rw (written, failed) at h)
                | inl (diagnostic, noted) ↦
                    elim (Result-cases (canonical_json ops.serde (invalid_value ops i))) [
                      | inr (e, failed) ↦ cc (rw (written, noted, failed) at h)
                      | inl (preserved, kept) ↦
                          elim (Result-cases (
                            append_ledger_tx ops row_id event_id "ledger.repair_segmented" actor
                              (some certificate_id) (payload hash i) now (with_epoch hash s))) [
                                | inr (e, failed) ↦ cc (rw (written, noted, kept, failed) at h)
                                | inl ((t', row'), appended) ↦
                                    let same : reopen t' row' ≡ reopen t row =
                                      ok-injective (rw (written, noted, kept, appended) at h) in
                                    let same_store : t' ≡ t = cc in
                                    let same_row : row' ≡ row = cc in
                                    (text, appended ∙ rw (same_store, same_row) refl)
                              ]
                    ]
              ]
        ]

  -- What a repair that is made went through
  plan-steps :
      (s t : LedgerStore) (row : LedgerEventRow)
      → plan s ≡ ok (reopen t row)
      → (before : LedgerReport) × ((i : Invalid) × ((verify_ledger_conn ops s ≡ ok before)
            × ((before.first_invalid ≡ some i)
                × ((text : String) × Follows i (ops.sha256_hex text) s t row))))
  unfolding repair_plan
  plan-steps s t row h = elim (Result-cases (verify_ledger_conn ops s)) [
    | inr (e, failed) ↦ cc (rw failed at h)
    | inl (before, read) ↦ elim (Option-cases before.first_invalid) [
      | inl clean ↦ cc (rw (read, clean) at h)
      | inr (i, bad) ↦ elim (Option-cases before.repair_certificate) [
        | inr (c, certified) ↦ cc (rw (read, bad, certified) at h)
        | inl uncertified ↦ (
          before,
          (i, (read, (bad, certify-Follows i before s t row (rw (read, bad, uncertified) at h)))),
        )
      ]
    ]
  ]

  -- What the report on a repaired ledger says, beside the report from before.
  pub record Restored (s t : LedgerStore) (row : LedgerEventRow) (before after : LedgerReport)
      : Type 0 where
    pub is_valid : after.valid ≡ true
    pub not_rewritten : t.events ≡ s.events ++ (row ∷ [])
    pub still_shown : after.first_invalid ≡ before.first_invalid
    pub checked : after.checked_events ≡ before.checked_events + 1
    pub certified : after.historical_status ≡ "invalid_preserved"
    pub has_certificate : (c : RepairCertificate) × (after.repair_certificate ≡ some c)

  empty_sequence :
      (s : LedgerStore) (p : Option String)
      → verify_ledger_sequence ops [] p s.mutations ≡ ok (fresh ops 0)
  unfolding verify_ledger_sequence verify_rows
  empty_sequence s p = refl

  from_anchor :
      (row : LedgerEventRow) (hash : String) (s : LedgerStore)
      → ledger_row_status ops row (some hash) s.mutations ≡ ok valid
      → ledger_row_status ops row
          (or_else (hash_of (last_row {A = LedgerEventRow} [])) (some hash))
          s.mutations
        ≡ ok valid
  unfolding last_row
  from_anchor row hash s st = st

  -- The report on the old rows stays, and the new epoch has the one event that follows its hash.
  reports-Restored :
      (s : LedgerStore) (row : LedgerEventRow) (before : LedgerReport) (i : Invalid) (hash : String)
      → active_ledger_epoch s.epochs ≡ none
      → rows_of (some epoch_id) s.events ≡ []
      → verify_ledger_conn ops s ≡ ok before
      → before.first_invalid ≡ some i
      → row.ledger_epoch_id ≡ some epoch_id
      → ledger_row_status ops row (some hash) s.mutations ≡ ok valid
      → (after : LedgerReport) × ((verify_ledger_conn ops
              (record (with_epoch hash s) { events = s.events ++ (row ∷ []) })
            ≡ ok after)
          × Restored s
              (record (with_epoch hash s) { events = s.events ++ (row ∷ []) })
              row
              before
              after)
  unfolding verify_ledger_conn report_without_epoch report_with_epoch opened historical_status_of
  reports-Restored s row before i hash no_epoch unused read bad own st =
      elim (Result-cases (verify_ledger_sequence ops (rows_of none s.events) none s.mutations)) [
        | inr (e, failed) ↦ cc (rw failed at read)
        | inl (w, old) ↦
            let was : report_without_epoch s w ≡ before =
              ok-injective (rw (old, no_epoch) at read) in
            let t = record (with_epoch hash s) { events = s.events ++ (row ∷ []) } in
            let bad_old : w.first_invalid ≡ some i = rw (sym was) at bad in
            let (c, certified) =
              certificate-append s.certificates
                (record { id = certificate_id; active_epoch_id = epoch_id; created_at_s = now })
                epoch_id (str_eq_refl epoch_id) in
            let epoch : LedgerEpochRow = record {
              id = epoch_id;
              status = "active";
              created_at_s = now;
              anchor_hash = some hash;
              repair_certificate_id = some certificate_id;
            } in
            let live = active-append s.epochs epoch refl no_epoch in
            let old_rows : rows_of none (s.events ++ (row ∷ [])) ≡ rows_of none s.events =
              rows_of-append_other none s.events row (rw own (other_epoch epoch_id)) in
            let new_rows : rows_of (some epoch_id) (s.events ++ (row ∷ [])) ≡ row ∷ [] =
              rows_of-append (some epoch_id) s.events row (rw own (opt_eq_refl (some epoch_id)))
              ∙ ap (λ l. l ++ (row ∷ [])) unused in
            let current = record (counted ops row (fresh ops 0)) { total_events = 1 } in
            let continued : verify_ledger_sequence ops (row ∷ []) (some hash) s.mutations
                ≡ ok current =
              sequence_append ops s.mutations [] (some hash) (fresh ops 0) row
                (empty_sequence s (some hash)) refl (from_anchor row hash s st) in
            (
              report_with_epoch t epoch w current,
              (
                rw (old_rows, old, live, new_rows, continued) refl,
                rw (sym was) (record {
                  is_valid = rw (bad_old, certified) refl;
                  not_rewritten = refl;
                  still_shown = refl;
                  checked = refl;
                  certified = rw (bad_old, certified) refl;
                  has_certificate = (c, certified);
                }),
              ),
            )
      ]

  invalid_before :
      (s t : LedgerStore) (row : LedgerEventRow) (before : LedgerReport)
      → verify_ledger_conn ops s ≡ ok before
      → plan s ≡ ok (reopen t row)
      → (i : Invalid) × (before.first_invalid ≡ some i)
  invalid_before s t row before read planned =
      let (b, (i, (read', (bad, rest)))) = plan-steps s t row planned in
      let same : b ≡ before = ok-injective (sym read' ∙ read) in (i, rw (sym same) bad)

  opened-head :
      (s : LedgerStore) (hash : String)
      → active_ledger_epoch s.epochs ≡ none
      → rows_of (some epoch_id) s.events ≡ []
      → chain_head (with_epoch hash s) ≡ (some epoch_id, some hash)
  unfolding chain_head opened last_row
  opened-head s hash no_epoch unused =
      let live =
        active-append s.epochs
          (record {
            id = epoch_id;
            status = "active";
            created_at_s = now;
            anchor_hash = some hash;
            repair_certificate_id = some certificate_id;
          })
          refl no_epoch in
      rw (chain_head, live, unused) refl

  -- Take a ledger without an active epoch that a repair certifies. No event has the new epoch's id, and
  -- the payload of the repair's event reads back. Then the repaired ledger verifies as valid, its old
  -- rows are as they were with one row more, the invalid row is still shown, one event more is
  -- checked, and the history is reported as preserved.
  pub repair_restores :
      (s t : LedgerStore) (row : LedgerEventRow)
      → HexDigests ops
      → ((before : LedgerReport) (i : Invalid) (text : String)
          → verify_ledger_conn ops s ≡ ok before
          → before.first_invalid ≡ some i
          → ReadsBack ops (payload (ops.sha256_hex text) i))
      → active_ledger_epoch s.epochs ≡ none
      → rows_of (some epoch_id) s.events ≡ []
      → plan s ≡ ok (reopen t row)
      → (before : LedgerReport) × ((after : LedgerReport) × ((verify_ledger_conn ops s ≡ ok before)
            × ((verify_ledger_conn ops t ≡ ok after) × Restored s t row before after)))
  unfolding opened
  repair_restores s t row hex back no_epoch unused planned =
      let (before, (i, (read, (bad, (text, follows))))) = plan-steps s t row planned in
      let hash = ops.sha256_hex text in
      let u = with_epoch hash s in
      let (sealed, own, grows) =
        append_ledger_tx-Sealed ops row_id now event_id "ledger.repair_segmented" actor
          (some certificate_id) (payload hash i) u t row follows in
      let head = opened-head s hash no_epoch unused in
      let status =
        Sealed-valid ops (chain_head u).1 (payload hash i) row s.mutations hex
          (back before i text read bad) sealed in
      let (after, (now_valid, restored)) =
        reports-Restored s row before i hash no_epoch unused read bad
          (own ∙ ap (λ (h : Option String × Option String). h.0) head)
          (subst (λ p. ledger_row_status ops row p s.mutations ≡ ok valid)
            (ap (λ (h : Option String × Option String). h.1) head) status) in
      (
        before,
        (
          after,
          (
            read,
            subst (λ x. (verify_ledger_conn ops x ≡ ok after) × Restored s x row before after)
                (sym grows) (now_valid, restored),
          ),
        ),
      )

  -- A ledger without an active epoch that was repaired is left as it is by every further request for a
  -- repair, whatever its clock and its ids, under the conditions under which a repair restores it.
  pub repaired_once :
      (s t : LedgerStore) (row : LedgerEventRow) (row_id' now' : ℤ)
      (event_id' epoch_id' certificate_id' actor' reason' : String)
      → HexDigests ops
      → ((before : LedgerReport) (i : Invalid) (text : String)
          → verify_ledger_conn ops s ≡ ok before
          → before.first_invalid ≡ some i
          → ReadsBack ops (payload (ops.sha256_hex text) i))
      → active_ledger_epoch s.epochs ≡ none
      → rows_of (some epoch_id) s.events ≡ []
      → plan s ≡ ok (reopen t row)
      → (after : LedgerReport) × ((verify_ledger_conn ops t ≡ ok after)
          × (repair_segmented_ledger ops row_id' now' event_id' epoch_id' certificate_id' actor'
                reason' t
              ≡ (t, ok (already_repaired after))))
  unfolding repair_segmented_ledger repair_plan
  repaired_once s t row row_id' now' event_id' epoch_id' certificate_id' actor' reason' hex back
        no_epoch unused planned =
      let (before, (after, (read, (now_valid, restored)))) =
        repair_restores s t row hex back no_epoch unused planned in
      let (i, bad) = invalid_before s t row before read planned in
      let (c, certified) = restored.has_certificate in
      (
        after,
        (
          now_valid,
          rw
              (
                repair_segmented_ledger,
                repair_plan,
                now_valid,
                restored.still_shown ∙ bad,
                certified,
              )
              refl,
        ),
      )

-- ===== src/Ledger/Append.antt =====
-- `append_ledger_tx` and `verify_ledger_conn` (crates/hom-brain/src/db/storage.rs): an appended
-- event continues a chain that verifies.
use hom_local.Ledger.{
  LedgerOps, LedgerEventRow, LedgerEpochRow, MutationRecord, LedgerSequenceVerification, valid,
  is_64_hex, opt_eq, or_else, last_row, hash_of, hash_object, row_object, content_status,
  ledger_row_status, verify_rows, fresh, verify_ledger_sequence, counted,
}
use hom_local.Ledger.Store.{
  RepairCertificate, historical_status_of, load_repair_certificate, LedgerStore, LedgerReport,
  rows_of, active_ledger_epoch, chain_head, new_row, append_ledger_tx, verify_ledger_conn,
  report_with_epoch, report_without_epoch,
}
use hom_local.Ledger.Chain.{opt_eq_refl, str_eq_refl, verify_rows-append, verify_rows-total}
use hom_local.Ledger.Sound.{or_else-none, Result-cases}
use hom_local.Json.{Value, canonical_json}
use hom_local.Json.Laws.{SameValue, same, same_field, same_object, same_end, canonical_json_stable}
use hom_local.Prelude.Int.{ℤ}
use hom_local.Prelude.{
  ltb, ℕ, ◌+◌, String, true, false, not, ◌&&◌, List, [], ◌∷◌, ◌++◌, Option, none, some, str_eq,
  length, length-append, ◌≡◌, refl, sym, ◌∙◌, ap, inl, inr, Result, ok, Bool-cases, Option-cases,
  arith,
}

pub rows_of-append :
    (epoch : Option String) (rows : List LedgerEventRow) (row : LedgerEventRow)
    → opt_eq row.ledger_epoch_id epoch ≡ true
    → rows_of epoch (rows ++ (row ∷ [])) ≡ rows_of epoch rows ++ (row ∷ [])
unfolding rows_of
rows_of-append epoch [] row h = rw h refl
rows_of-append epoch (x ∷ rows) row h = elim (Bool-cases (opt_eq x.ledger_epoch_id epoch)) [
  | inl e ↦ rw (e, rows_of-append epoch rows row h) refl
  | inr e ↦ rw (e, rows_of-append epoch rows row h) refl
]

pub rows_of-append_other :
    (epoch : Option String) (rows : List LedgerEventRow) (row : LedgerEventRow)
    → opt_eq row.ledger_epoch_id epoch ≡ false
    → rows_of epoch (rows ++ (row ∷ [])) ≡ rows_of epoch rows
unfolding rows_of
rows_of-append_other epoch [] row h = rw h refl
rows_of-append_other epoch (x ∷ rows) row h = elim (Bool-cases (opt_eq x.ledger_epoch_id epoch)) [
  | inl e ↦ rw (e, rows_of-append_other epoch rows row h) refl
  | inr e ↦ rw (e, rows_of-append_other epoch rows row h) refl
]

pub other_epoch : (id : String) → opt_eq (some id) none ≡ false
unfolding opt_eq
other_epoch id = refl

clean_status :
    (n : ℕ) (c : Option RepairCertificate)
    → (ltb 0 (n + 1) && not (str_eq (historical_status_of none c) "invalid_uncertified")) ≡ true
unfolding historical_status_of
clean_status n c = ground arith

or_else_both : {A : Type 0} (a b : Option A) → or_else a b ≡ none → (a ≡ none) × (b ≡ none)
or_else_both none b h = (refl, h)
or_else_both (some x) b h = cc

module _ (ops : LedgerOps) where
  -- SHA-256 in hexadecimal has 64 digits.
  abbrev pub HexDigests : Type 0
  HexDigests = (t : String) → is_64_hex (ops.sha256_hex t) ≡ true

  -- The canonical text of the payload parses to the payload, up to the order of keys.
  abbrev pub ReadsBack : Value ops.serde.Number → Type 0
  ReadsBack payload =
      (t : String)
      → canonical_json ops.serde payload ≡ ok t
      → (w : Value ops.serde.Number) × (ops.from_str t ≡ ok w) × SameValue payload w

  -- What a row that continues the chain after `p` is.
  pub record Sealed (p : Option String) (payload : Value ops.serde.Number) (row : LedgerEventRow)
      : Type 0 where
    pub chained : row.prev_hash ≡ p
    pub stored : canonical_json ops.serde payload ≡ ok row.payload_json
    pub text : String
    pub hashed : canonical_json ops.serde (row_object ops row payload) ≡ ok text
    pub digest : row.event_hash ≡ ops.sha256_hex text

  same_row :
      (row : LedgerEventRow) (v w : Value ops.serde.Number)
      → SameValue v w
      → SameValue (row_object ops row v) (row_object ops row w)
  unfolding hash_object
  same_row row v w h = same_object (
      same_field _ same (
        same_field _ same (
          same_field _ same
            (same_field _ same (same_field _ h (same_field _ same (same_field _ same same_end)))))))

  pub Sealed-valid :
      (p : Option String) (payload : Value ops.serde.Number) (row : LedgerEventRow)
      (mutations : List MutationRecord)
      → HexDigests
      → ReadsBack payload
      → Sealed p payload row
      → ledger_row_status ops row p mutations ≡ ok valid
  unfolding ledger_row_status content_status
  Sealed-valid p payload row mutations hex back s =
      let (w, parsed, alike) = back row.payload_json s.stored in
      let text : canonical_json ops.serde (row_object ops row w) ≡ ok s.text =
        sym (canonical_json_stable ops.serde _ _ (same_row row payload w alike)) ∙ s.hashed in
      rw
        (
          s.digest,
          hex s.text,
          s.chained,
          opt_eq_refl p,
          parsed,
          text,
          s.digest,
          str_eq_refl (ops.sha256_hex s.text),
        )
        refl

  module _ (row_id created_at_s : ℤ) (event_id event_type actor : String)
      (subject_id : Option String) (payload : Value ops.serde.Number) where
    abbrev pub append : LedgerStore → Result String (LedgerStore × LedgerEventRow)
    append = append_ledger_tx ops row_id event_id event_type actor subject_id payload created_at_s

    pub append_ledger_tx-Sealed :
        (s s' : LedgerStore) (row : LedgerEventRow)
        → append s ≡ ok (s', row)
        → Sealed (chain_head s).1 payload row
          × (row.ledger_epoch_id ≡ (chain_head s).0)
          × (s' ≡ record s { events = s.events ++ (row ∷ []) })
    unfolding append_ledger_tx
    append_ledger_tx-Sealed s s' row h = elim (Result-cases (canonical_json ops.serde payload)) [
      | inl (x, e) ↦ cc (rw e at h)
      | inr (json, e) ↦
          elim (Result-cases (
            canonical_json ops.serde (
              hash_object ops event_id event_type actor subject_id payload (chain_head s).1
                created_at_s))) [
                  | inl (x, f) ↦ cc (rw (e, f) at h)
                  | inr (text, f) ↦
                      let new =
                        new_row row_id event_id event_type actor subject_id created_at_s json
                          (ops.sha256_hex text) s in
                      let row_eq : new ≡ row = cc (rw (e, f) at h) in
                      let store_eq : record s { events = s.events ++ (new ∷ []) } ≡ s' =
                        cc (rw (e, f) at h) in
                      rw (sym store_eq, sym row_eq)
                        (
                          record {
                            chained = refl;
                            stored = e;
                            text = text;
                            hashed = f;
                            digest = refl;
                          },
                          refl,
                          refl,
                        )
                ]
    ]

  one_more :
      (mutations : List MutationRecord) (row : LedgerEventRow) (p : Option String)
      (w : LedgerSequenceVerification)
      → ledger_row_status ops row p mutations ≡ ok valid
      → verify_rows ops (row ∷ []) p mutations w ≡ ok (counted ops row w)
  unfolding verify_rows
  one_more mutations row p w h = rw h refl

  pub sequence_append :
      (mutations : List MutationRecord) (rows : List LedgerEventRow) (p : Option String)
      (w : LedgerSequenceVerification) (row : LedgerEventRow)
      → verify_ledger_sequence ops rows p mutations ≡ ok w
      → w.first_invalid ≡ none
      → ledger_row_status ops row (or_else (hash_of (last_row rows)) p) mutations ≡ ok valid
      → verify_ledger_sequence ops (rows ++ (row ∷ [])) p mutations
        ≡ ok (record (counted ops row w) { total_events = length (rows ++ (row ∷ [])) })
  unfolding verify_ledger_sequence
  sequence_append mutations rows p w row h f s =
      let n = length (rows ++ (row ∷ [])) in
      let w' = record w { total_events = n } in
      verify_rows-append ops mutations rows (row ∷ []) p (fresh ops n) w'
        (verify_rows-total ops mutations n rows p (fresh ops (length rows)) w h) f
      ∙ one_more mutations row (or_else (hash_of (last_row rows)) p) w' s

  -- The report of the grown ledger, beside the one from before.
  pub record Extends (r : LedgerReport) (row : LedgerEventRow) (r' : LedgerReport) : Type 0 where
    pub is_valid : r'.valid ≡ true
    pub no_invalid : r'.first_invalid ≡ none
    pub one_checked : r'.checked_events ≡ r.checked_events + 1
    pub one_event : r'.total_events ≡ r.total_events + 1
    pub head : r'.verified_head_hash ≡ some row.event_hash
    pub same_modified : r'.self_modified_events ≡ r.self_modified_events

  abbrev grown : LedgerStore → LedgerEventRow → LedgerStore
  grown s row = record s { events = s.events ++ (row ∷ []) }

  module _ (s : LedgerStore) (row : LedgerEventRow) (r : LedgerReport) where
    Extends-history :
        active_ledger_epoch s.epochs ≡ none
        → rows_of none s.events ≡ s.events
        → row.ledger_epoch_id ≡ none
        → ledger_row_status ops row (hash_of (last_row s.events)) s.mutations ≡ ok valid
        → verify_ledger_conn ops s ≡ ok r
        → r.first_invalid ≡ none
        → (r' : LedgerReport) × (verify_ledger_conn ops (grown s row) ≡ ok r') × Extends r row r'
    unfolding verify_ledger_conn report_without_epoch
    Extends-history e plain epoch st h f =
        elim (Result-cases (verify_ledger_sequence ops (rows_of none s.events) none s.mutations)) [
          | inl (x, q) ↦ cc (rw q at h)
          | inr (w, q) ↦
              let was : report_without_epoch s w ≡ r = cc (rw (q, e) at h) in
              let settled : w.first_invalid ≡ none = rw (sym was) at f in
              let more =
                sequence_append s.mutations s.events none w row (rw plain at q) settled
                  (rw (or_else-none (hash_of (last_row s.events))) st) in
              let rows : rows_of none (s.events ++ (row ∷ [])) ≡ s.events ++ (row ∷ []) =
                rows_of-append none s.events row (rw epoch refl)
                ∙ ap (λ l. l ++ (row ∷ [])) plain in
              let now = record (counted ops row w) {
                total_events = length (s.events ++ (row ∷ []));
              } in
              (
                report_without_epoch (grown s row) now,
                rw (rows, more, e) refl,
                rw (sym was) (record {
                  is_valid = rw settled refl;
                  no_invalid = settled;
                  one_checked = refl;
                  one_event = length-append s.events (row ∷ []);
                  head = refl;
                  same_modified = refl;
                }),
              )
        ]

    Extends-epoch :
        (epoch : LedgerEpochRow)
        → active_ledger_epoch s.epochs ≡ some epoch
        → row.ledger_epoch_id ≡ some epoch.id
        → ledger_row_status ops row
            (or_else (hash_of (last_row (rows_of (some epoch.id) s.events))) epoch.anchor_hash)
            s.mutations
          ≡ ok valid
        → verify_ledger_conn ops s ≡ ok r
        → r.first_invalid ≡ none
        → (r' : LedgerReport) × (verify_ledger_conn ops (grown s row) ≡ ok r') × Extends r row r'
    unfolding verify_ledger_conn report_with_epoch
    Extends-epoch epoch e own st h f =
        let past = rows_of none s.events in
        let present = rows_of (some epoch.id) s.events in
        elim (Result-cases (verify_ledger_sequence ops past none s.mutations)) [
          | inl (x, q) ↦ cc (rw q at h)
          | inr (old, q) ↦
              elim (Result-cases
                (verify_ledger_sequence ops present epoch.anchor_hash s.mutations)) [
                  | inl (x, g) ↦ cc (rw (q, e, g) at h)
                  | inr (w, g) ↦
                      let was : report_with_epoch s epoch old w ≡ r = cc (rw (q, e, g) at h) in
                      let none_found : or_else w.first_invalid old.first_invalid ≡ none =
                        rw (sym was) at f in
                      let (settled, settled_old) =
                        or_else_both w.first_invalid old.first_invalid none_found in
                      let more =
                        sequence_append s.mutations present epoch.anchor_hash w row g settled st in
                      let rows : rows_of none (s.events ++ (row ∷ [])) ≡ past =
                        rows_of-append_other none s.events row (rw own (other_epoch epoch.id)) in
                      let rows' : rows_of (some epoch.id) (s.events ++ (row ∷ []))
                          ≡ present ++ (row ∷ []) =
                        rows_of-append (some epoch.id) s.events row
                          (rw own (opt_eq_refl (some epoch.id))) in
                      let now = record (counted ops row w) {
                        total_events = length (present ++ (row ∷ []));
                      } in
                      (
                        report_with_epoch (grown s row) epoch old now,
                        rw (rows, q, e, rows', more) refl,
                        rw (sym was) (record {
                          is_valid =
                              rw (settled, settled_old, length-append present (row ∷ []))
                                (clean_status (length present)
                                  (load_repair_certificate s.certificates epoch.id));
                          no_invalid = none_found;
                          one_checked = omega arith;
                          one_event = length-append s.events (row ∷ []);
                          head = refl;
                          same_modified = refl;
                        }),
                      )
                ]
        ]

  -- Take a ledger that verifies without an invalid row. If no epoch is active, no event of it has
  -- an epoch. Appending an event whose payload's canonical text reads back gives a ledger that
  -- verifies as valid without an invalid row: one event more is counted and one more checked, the
  -- verified head is the new event's hash, and no event more is reported as modified.
  pub append_keeps_valid :
      (row_id created_at_s : ℤ) (event_id event_type actor : String) (subject_id : Option String)
      (payload : Value ops.serde.Number) (s s' : LedgerStore) (row : LedgerEventRow)
      (r : LedgerReport)
      → HexDigests
      → ReadsBack payload
      → (active_ledger_epoch s.epochs ≡ none → rows_of none s.events ≡ s.events)
      → verify_ledger_conn ops s ≡ ok r
      → r.first_invalid ≡ none
      → append_ledger_tx ops row_id event_id event_type actor subject_id payload created_at_s s
        ≡ ok (s', row)
      → (r' : LedgerReport) × (verify_ledger_conn ops s' ≡ ok r') × Extends r row r'
  unfolding chain_head
  append_keeps_valid row_id created_at_s event_id event_type actor subject_id payload s s' row r hex
        back plain h f a =
      let (sealed, own, grows) =
        append_ledger_tx-Sealed row_id created_at_s event_id event_type actor subject_id payload s
          s' row a in
      let status = Sealed-valid (chain_head s).1 payload row s.mutations hex back sealed in
      elim (Option-cases (active_ledger_epoch s.epochs)) [
        | inl e ↦ rw grows (
            Extends-history s row r e (plain e) (rw (e, chain_head) at own)
              (rw (e, chain_head) at status) h f)
        | inr (epoch, e) ↦ rw grows (
            Extends-epoch s row r epoch e (rw (e, chain_head) at own) (rw (e, chain_head) at status)
              h f)
      ]

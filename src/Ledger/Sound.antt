-- ===== src/Ledger/Sound.antt =====
-- What a ledger that verifies without an invalid row consists of
-- (crates/hom-brain/src/db/storage.rs, `ledger_row_status` and `verify_ledger_sequence`).
use hom_local.Ledger.{
  LedgerOps, LedgerEventRow, MutationRecord, LedgerSequenceVerification, LedgerRowStatus, valid,
  self_modified_preserved, invalid, Invalid, mutation_of, is_64_hex, opt_eq, or_else, last_row,
  hash_of, row_object, mutated_status, content_status, ledger_row_status, verify_rows, fresh,
  verify_ledger_sequence,
}
use hom_local.Ledger.Chain.{last_or, opt_eq_sound, Status-cases}
use hom_local.Json.{Value, canonical_json}
use hom_local.Prelude.{
  ◌+◌, String, Bool, true, false, List, [], ◌∷◌, Option, none, some, str_eq, eq_iff, length, ◌≡◌,
  refl, sym, ◌∙◌, ◌⊎◌, inl, inr, Result, ok, err, Bool-cases, arith,
}

pub Result-cases :
    {A : Type 0} (r : Result String A) → ((e : String) × (r ≡ err e)) ⊎ ((a : A) × (r ≡ ok a))
Result-cases (err e) = inl (e, refl)
Result-cases (ok a) = inr (a, refl)

pub or_else-none : (o : Option String) → or_else o none ≡ o
or_else-none none = refl
or_else-none (some x) = refl

module _ (ops : LedgerOps) (mutations : List MutationRecord) where
  -- The first recorded mutation of the row's event is of this hash and of the payload as it is.
  pub record RecordedMutation (row : LedgerEventRow) (payload : Value ops.serde.Number)
      : Type 0 where
    pub mutation : MutationRecord
    pub recorded : mutation_of row.event_id mutations ≡ some mutation
    pub payload_text : String
    pub canonical_payload : canonical_json ops.serde payload ≡ ok payload_text
    pub of_this_hash : mutation.original_event_hash ≡ row.event_hash
    pub of_this_payload : mutation.post_mutation_payload_hash ≡ ops.sha256_hex payload_text

  -- The row continues the chain after the hash `p`, and its content is what its hash was made of or
  -- what a recorded mutation made of it.
  pub record Accounted (p : Option String) (row : LedgerEventRow) : Type 0 where
    pub hex : is_64_hex row.event_hash ≡ true
    pub chained : row.prev_hash ≡ p
    pub payload : Value ops.serde.Number
    pub parsed : ops.from_str row.payload_json ≡ ok payload
    pub text : String
    pub hashed : canonical_json ops.serde (row_object ops row payload) ≡ ok text
    pub content : (row.event_hash ≡ ops.sha256_hex text) ⊎ RecordedMutation row payload

  abbrev pub IsChained : Option String → List LedgerEventRow → Type 0
  IsChained p [] = Unit
  IsChained p (row ∷ rows) = Accounted p row × IsChained (some row.event_hash) rows

  abbrev pub accepts : LedgerRowStatus → Bool
  accepts valid = true
  accepts (self_modified_preserved d) = true
  accepts (invalid i) = false

  not_refused :
      {A : Type 0} (i : Invalid) (s : LedgerRowStatus)
      → ◌≡◌ {A = Result String LedgerRowStatus} (ok (invalid i)) (ok s)
      → accepts s ≡ true
      → A
  not_refused i valid h a = cc
  not_refused i (self_modified_preserved d) h a = cc
  not_refused i (invalid j) h a = cc

  mutated_status_sound :
      (row : LedgerEventRow) (expected hash : String) (m : Option MutationRecord)
      → accepts (mutated_status ops row expected hash m) ≡ true
      → (r : MutationRecord) × (m ≡ some r)
        × (r.original_event_hash ≡ row.event_hash)
        × (r.post_mutation_payload_hash ≡ hash)
  unfolding mutated_status
  mutated_status_sound row expected hash none h = cc
  mutated_status_sound row expected hash (some r) h =
      elim (Bool-cases (str_eq r.original_event_hash row.event_hash)) [
        | inr e ↦ cc (rw e at h)
        | inl e ↦ elim (Bool-cases (str_eq r.post_mutation_payload_hash hash)) [
          | inr f ↦ cc (rw (e, f) at h)
          | inl f ↦ (
            r,
            refl,
            (eq_iff r.original_event_hash row.event_hash).0 e,
            (eq_iff r.post_mutation_payload_hash hash).0 f,
          )
        ]
      ]

  content_status_sound :
      (row : LedgerEventRow) (p : Option String) (payload : Value ops.serde.Number)
      (s : LedgerRowStatus)
      → is_64_hex row.event_hash ≡ true
      → row.prev_hash ≡ p
      → ops.from_str row.payload_json ≡ ok payload
      → content_status ops row mutations payload ≡ ok s
      → accepts s ≡ true
      → Accounted p row
  unfolding content_status
  content_status_sound row p payload s hex prev parsed h a =
      elim (Result-cases (canonical_json ops.serde (row_object ops row payload))) [
        | inl (x, e) ↦ cc (rw e at h)
        | inr (text, e) ↦
            let accounted : (row.event_hash ≡ ops.sha256_hex text) ⊎ RecordedMutation row payload
                → Accounted p row =
              λ c. record {
                hex = hex;
                chained = prev;
                payload = payload;
                parsed = parsed;
                text = text;
                hashed = e;
                content = c;
              } in
            elim (Bool-cases (str_eq row.event_hash (ops.sha256_hex text))) [
              | inl f ↦ accounted (inl ((eq_iff row.event_hash (ops.sha256_hex text)).0 f))
              | inr f ↦ elim (Result-cases (canonical_json ops.serde payload)) [
                | inl (x, g) ↦ cc (rw (e, f, g) at h)
                | inr (body, g) ↦
                    let st : mutated_status ops row (ops.sha256_hex text) (ops.sha256_hex body)
                          (mutation_of row.event_id mutations)
                        ≡ s =
                      cc (rw (e, f, g) at h) in
                    let (r, k, o, q) =
                      mutated_status_sound row (ops.sha256_hex text) (ops.sha256_hex body)
                        (mutation_of row.event_id mutations) (rw st a) in
                    accounted (
                      inr (record {
                        mutation = r;
                        recorded = k;
                        payload_text = body;
                        canonical_payload = g;
                        of_this_hash = o;
                        of_this_payload = q;
                      }))
              ]
            ]
      ]

  ledger_row_status_sound :
      (row : LedgerEventRow) (p : Option String) (s : LedgerRowStatus)
      → ledger_row_status ops row p mutations ≡ ok s
      → accepts s ≡ true
      → Accounted p row
  unfolding ledger_row_status
  ledger_row_status_sound row p s h a = elim (Bool-cases (is_64_hex row.event_hash)) [
    | inr e ↦ not_refused _ s (rw e at h) a
    | inl e ↦ elim (Bool-cases (opt_eq row.prev_hash p)) [
      | inr f ↦ not_refused _ s (rw (e, f) at h) a
      | inl f ↦ elim (Result-cases (ops.from_str row.payload_json)) [
        | inl (x, g) ↦ not_refused _ s (rw (e, f, g) at h) a
        | inr (payload, g) ↦
            content_status_sound row p payload s e (opt_eq_sound row.prev_hash p f) g
              (rw (e, f, g) at h) a
      ]
    ]
  ]

  verify_rows_sound :
      (rows : List LedgerEventRow) (p : Option String) (v w : LedgerSequenceVerification)
      → verify_rows ops rows p mutations v ≡ ok w
      → w.first_invalid ≡ none
      → IsChained p rows
        × (w.checked_events ≡ v.checked_events + length rows)
        × (w.total_events ≡ v.total_events)
        × (w.verified_head_hash ≡ or_else (hash_of (last_row rows)) v.verified_head_hash)
  unfolding verify_rows last_row
  verify_rows_sound [] p v w h f = let e : v ≡ w = cc in rw (sym e) (tt, omega arith, refl, refl)
  verify_rows_sound (row ∷ rows) p v w h f =
      elim (Status-cases (ledger_row_status ops row p mutations)) [
        | inl (e, q) ↦ cc (rw q at h)
        | inr (inl q) ↦
            let (c, n, t, d) = verify_rows_sound rows (some row.event_hash) _ w (rw q at h) f in
            (
              (ledger_row_status_sound row p _ q refl, c),
              omega arith,
              t,
              d ∙ last_or rows row v.verified_head_hash,
            )
        | inr (inr (inl (x, q))) ↦
            let (c, n, t, d) = verify_rows_sound rows (some row.event_hash) _ w (rw q at h) f in
            (
              (ledger_row_status_sound row p _ q refl, c),
              omega arith,
              t,
              d ∙ last_or rows row v.verified_head_hash,
            )
        | inr (inr (inr (i, q))) ↦
            let stopped : w ≡ record v { first_invalid = some i } = cc (rw q at h) in cc
      ]

  -- A sequence that verifies without an invalid row, from a starting hash, is a chain: every row
  -- has a hash of 64 hexadecimal digits and names the hash before it, its payload parses, and its
  -- hash is that of its content, unless the first mutation recorded for its event carries its hash
  -- and the hash of its present payload. Every row is counted, and the verified head is the hash of
  -- the last row.
  pub sequence_sound :
      (rows : List LedgerEventRow) (starting : Option String) (w : LedgerSequenceVerification)
      → verify_ledger_sequence ops rows starting mutations ≡ ok w
      → w.first_invalid ≡ none
      → IsChained starting rows
        × (w.checked_events ≡ length rows)
        × (w.total_events ≡ length rows)
        × (w.verified_head_hash ≡ hash_of (last_row rows))
  unfolding verify_ledger_sequence
  sequence_sound rows starting w h f =
      let (c, n, t, d) = verify_rows_sound rows starting (fresh ops (length rows)) w h f in
      (c, omega arith, t, d ∙ or_else-none (hash_of (last_row rows)))

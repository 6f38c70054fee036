-- ===== src/Ledger/Mutation.antt =====
-- Recorded changes of events (crates/hom-brain/src/db/storage.rs, `record_mutation_tx` and
-- `load_mutation_records`): the table of mutations, and what a record does to the verification.
use hom_local.Ledger.{
  LedgerOps, LedgerEventRow, MutationRecord, SelfModified, self_modified_preserved, mutation_of,
  is_64_hex, opt_eq, or_else, last_row, opt_string, row_object, mutated_status, content_status,
  ledger_row_status,
}
use hom_local.Ledger.Chain.{opt_eq_refl}
use hom_local.Ledger.Sound.{Result-cases}
use hom_local.Json.{Value, string, number, object, end, field, canonical_json}
use hom_local.Prelude.{
  String, true, List, [], ◌∷◌, ◌++◌, map, Option, none, some, str_eq, eq_iff, ◌≡◌, ◌≢◌, refl, sym,
  ◌∙◌, inl, inr, Result, ok, ◌>>=◌, Bool-cases,
}
use hom_local.Prelude.Int.{ℤ}

-- A row of `ledger_mutation_events`
pub record MutationRow : Type 0 where
  pub loaded : MutationRecord
  pub target_row_id : ℤ
  pub actor : String
  pub cycle_id : Option String
  pub allowed_fields_json : String
  pub payload_delta_json : String
  pub rationale : String
  pub prev_mutation_hash : Option String
  pub mutation_hash : String
  pub created_at_s : ℤ

-- What the verification loads of the table
abbrev pub load : List MutationRow → List MutationRecord
load rows = map (λ row. row.loaded) rows

abbrev mutation_hash_of : Option MutationRow → Option String
mutation_hash_of none = none
mutation_hash_of (some row) = some row.mutation_hash

module _ (ops : LedgerOps) where
  -- The arguments of `record_mutation_tx`
  pub record Mutation : Type 0 where
    pub target_ledger_event_id : String
    pub target_row_id : ℤ
    pub mutation_type : String
    pub actor : String
    pub cycle_id : Option String
    pub allowed_fields : Value ops.serde.Number
    pub payload_delta : Value ops.serde.Number
    pub original_event_hash : String
    pub post_mutation_payload : Value ops.serde.Number
    pub rationale : String
    pub created_at_s : ℤ

  unfoldable pub mutation_object : String → Option String → Mutation → Value ops.serde.Number
  mutation_object mutation_id prev_mutation_hash m = object (
      field "mutation_id" (string mutation_id) (
        field "target_ledger_event_id" (string m.target_ledger_event_id) (
          field "mutation_type" (string m.mutation_type) (
            field "actor" (string m.actor) (
              field "original_event_hash" (string m.original_event_hash) (
                field "payload_delta" m.payload_delta (
                  field "prev_mutation_hash" (opt_string ops prev_mutation_hash)
                    (field "created_at_s" (number (ops.of_i64 m.created_at_s)) end))))))))

  -- The inserted row
  abbrev new_mutation :
      String → Option String → Mutation → String → String → String → String → MutationRow
  new_mutation mutation_id prev m payload_text hash_input allowed delta = record {
    loaded = record {
      mutation_id = mutation_id;
      target_ledger_event_id = m.target_ledger_event_id;
      mutation_type = m.mutation_type;
      original_event_hash = m.original_event_hash;
      post_mutation_payload_hash = ops.sha256_hex payload_text;
    };
    target_row_id = m.target_row_id;
    actor = m.actor;
    cycle_id = m.cycle_id;
    allowed_fields_json = allowed;
    payload_delta_json = delta;
    rationale = m.rationale;
    prev_mutation_hash = prev;
    mutation_hash = ops.sha256_hex hash_input;
    created_at_s = m.created_at_s;
  }

  -- `record_mutation_tx`: `mutation_id` is what `Uuid::new_v4` gives.
  unfoldable pub record_mutation_tx :
      String → Mutation → List MutationRow → Result String (List MutationRow)
  record_mutation_tx mutation_id m table =
      let prev = mutation_hash_of (last_row table) in
      do
        payload_text ← canonical_json ops.serde m.post_mutation_payload
        hash_input ← canonical_json ops.serde (mutation_object mutation_id prev m)
        allowed ← canonical_json ops.serde m.allowed_fields
        delta ← canonical_json ops.serde m.payload_delta
        ok (table ++ (new_mutation mutation_id prev m payload_text hash_input allowed delta ∷ []))

  mutation_of-append :
      (id : String) (table : List MutationRow) (row : MutationRow)
      → mutation_of id (load (table ++ (row ∷ [])))
        ≡ or_else (mutation_of id (load table)) (mutation_of id (row.loaded ∷ []))
  unfolding mutation_of
  mutation_of-append id [] row = refl
  mutation_of-append id (x ∷ table) row =
      elim (Bool-cases (str_eq x.loaded.target_ledger_event_id id)) [
        | inl e ↦ rw e refl
        | inr e ↦ rw e (mutation_of-append id table row)
      ]

  -- What the verification reads of the row that was added.
  record Records (m : Mutation) (table table' : List MutationRow) : Type 0 where
    row : MutationRow
    payload_text : String
    added : table' ≡ table ++ (row ∷ [])
    stored : canonical_json ops.serde m.post_mutation_payload ≡ ok payload_text
    target : row.loaded.target_ledger_event_id ≡ m.target_ledger_event_id
    original : row.loaded.original_event_hash ≡ m.original_event_hash
    post : row.loaded.post_mutation_payload_hash ≡ ops.sha256_hex payload_text

  record_mutation_tx-Records :
      (mutation_id : String) (m : Mutation) (table table' : List MutationRow)
      → record_mutation_tx mutation_id m table ≡ ok table'
      → Records m table table'
  unfolding record_mutation_tx
  record_mutation_tx-Records mutation_id m table table' h =
      let prev = mutation_hash_of (last_row table) in
      elim (Result-cases (canonical_json ops.serde m.post_mutation_payload)) [
        | inl (x, e) ↦ cc (rw e at h)
        | inr (text, e) ↦
            elim (Result-cases (canonical_json ops.serde (mutation_object mutation_id prev m))) [
              | inl (x, f) ↦ cc (rw (e, f) at h)
              | inr (input, f) ↦ elim (Result-cases (canonical_json ops.serde m.allowed_fields)) [
                | inl (x, g) ↦ cc (rw (e, f, g) at h)
                | inr (allowed, g) ↦
                    elim (Result-cases (canonical_json ops.serde m.payload_delta)) [
                      | inl (x, k) ↦ cc (rw (e, f, g, k) at h)
                      | inr (delta, k) ↦
                          let row = new_mutation mutation_id prev m text input allowed delta in
                          let grows : table ++ (row ∷ []) ≡ table' = cc (rw (e, f, g, k) at h) in
                          record {
                            row = row;
                            payload_text = text;
                            added = sym grows;
                            stored = e;
                            target = refl;
                            original = refl;
                            post = refl;
                          }
                    ]
              ]
            ]
      ]

  content-mutation_of :
      (row : LedgerEventRow) (payload : Value ops.serde.Number) (old new : List MutationRecord)
      → mutation_of row.event_id old ≡ mutation_of row.event_id new
      → content_status ops row old payload ≡ content_status ops row new payload
  unfolding content_status
  content-mutation_of row payload old new h =
      elim (Result-cases (canonical_json ops.serde (row_object ops row payload))) [
        | inl (x, e) ↦ rw e refl
        | inr (text, e) ↦ elim (Bool-cases (str_eq row.event_hash (ops.sha256_hex text))) [
          | inl f ↦ rw (e, f) refl
          | inr f ↦ elim (Result-cases (canonical_json ops.serde payload)) [
            | inl (x, g) ↦ rw (e, f, g) refl
            | inr (body, g) ↦ rw (e, f, g, h) refl
          ]
        ]
      ]

  status-mutation_of :
      (row : LedgerEventRow) (p : Option String) (old new : List MutationRecord)
      → mutation_of row.event_id old ≡ mutation_of row.event_id new
      → ledger_row_status ops row p old ≡ ledger_row_status ops row p new
  unfolding ledger_row_status
  status-mutation_of row p old new h = elim (Bool-cases (is_64_hex row.event_hash)) [
    | inr e ↦ rw e refl
    | inl e ↦ elim (Bool-cases (opt_eq row.prev_hash p)) [
      | inr f ↦ rw (e, f) refl
      | inl f ↦ elim (Result-cases (ops.from_str row.payload_json)) [
        | inl (x, g) ↦ rw (e, f, g) refl
        | inr (payload, g) ↦ rw (e, f, g) (content-mutation_of row payload old new h)
      ]
    ]
  ]

  -- Recording a mutation changes the verification of no event that has a record already: the first
  -- record of an event stays the one that counts.
  pub second_mutation_ignored :
      (mutation_id : String) (m : Mutation) (table table' : List MutationRow)
      (first : MutationRecord) (row : LedgerEventRow) (p : Option String)
      → record_mutation_tx mutation_id m table ≡ ok table'
      → mutation_of row.event_id (load table) ≡ some first
      → ledger_row_status ops row p (load table') ≡ ledger_row_status ops row p (load table)
  second_mutation_ignored mutation_id m table table' first row p h k =
      let r = record_mutation_tx-Records mutation_id m table table' h in
      let kept : mutation_of row.event_id (load table') ≡ mutation_of row.event_id (load table) =
        rw r.added (mutation_of-append row.event_id table r.row ∙ rw k refl) in
      status-mutation_of row p (load table') (load table) kept

  -- An event that continues the chain, whose payload no longer gives its hash, and that has no
  -- record yet: once its mutation is recorded with its hash and its present payload, the
  -- verification counts it as self-modified instead of invalid.
  pub mutation_preserves :
      (mutation_id : String) (m : Mutation) (table table' : List MutationRow) (row : LedgerEventRow)
      (p : Option String) (text : String)
      → record_mutation_tx mutation_id m table ≡ ok table'
      → mutation_of row.event_id (load table) ≡ none
      → m.target_ledger_event_id ≡ row.event_id
      → m.original_event_hash ≡ row.event_hash
      → is_64_hex row.event_hash ≡ true
      → row.prev_hash ≡ p
      → ops.from_str row.payload_json ≡ ok m.post_mutation_payload
      → canonical_json ops.serde (row_object ops row m.post_mutation_payload) ≡ ok text
      → row.event_hash ≢ ops.sha256_hex text
      → (d : SelfModified) × (ledger_row_status ops row p (load table')
          ≡ ok (self_modified_preserved d))
  unfolding ledger_row_status content_status mutated_status mutation_of
  mutation_preserves mutation_id m table table' row p text h new same_event same_hash hex prev
        parsed hashed differs =
      let r = record_mutation_tx-Records mutation_id m table table' h in
      let names : str_eq r.row.loaded.target_ledger_event_id row.event_id ≡ true =
        (eq_iff r.row.loaded.target_ledger_event_id row.event_id).1 (r.target ∙ same_event) in
      let found : mutation_of row.event_id (load table') ≡ some r.row.loaded =
        rw r.added (mutation_of-append row.event_id table r.row ∙ rw (new, names) refl) in
      let chained : opt_eq row.prev_hash p ≡ true = rw prev (opt_eq_refl p) in
      let original : str_eq r.row.loaded.original_event_hash row.event_hash ≡ true =
        (eq_iff r.row.loaded.original_event_hash row.event_hash).1 (r.original ∙ same_hash) in
      let post : str_eq r.row.loaded.post_mutation_payload_hash (ops.sha256_hex r.payload_text)
          ≡ true =
        (eq_iff r.row.loaded.post_mutation_payload_hash (ops.sha256_hex r.payload_text)).1 r.post in
      elim (Bool-cases (str_eq row.event_hash (ops.sha256_hex text))) [
        | inl e ↦ elim (differs ((eq_iff row.event_hash (ops.sha256_hex text)).0 e)) [ ]
        | inr e ↦ (
          record {
            row = row;
            expected_event_hash = ops.sha256_hex text;
            mutation_id = r.row.loaded.mutation_id;
            mutation_type = r.row.loaded.mutation_type;
          },
          rw (hex, chained, parsed, hashed, e, r.stored, found, original, post) refl,
        )
      ]

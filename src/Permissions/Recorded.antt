-- ===== src/Permissions/Recorded.antt =====
-- The ledger of crates/hom-brain/src/db/storage.rs under the grants of
-- crates/hom-brain/src/services/permissions.rs, and revocations that are recorded in it.
use hom_local.Prelude.{
  String, List, Option, none, some, ◌≡◌, refl, Result, ok, ◌>>=◌, ltb, false, ℕ, ◌+◌,
}
use hom_local.Prelude.Int.{ℤ}
use hom_local.Json.{Value, write_fields}
use hom_local.Json.Written.{
  QuotesAll, IsWritten, object-IsWritten, string-IsWritten, null-IsWritten,
}
use hom_local.Ledger.{LedgerOps}
use hom_local.Ledger.Store.{LedgerStore, append_ledger_tx}
use hom_local.Ledger.Written.{WritesTimes, append_ledger_tx-returns}
use hom_local.Permissions.{GrantOps, GrantRow}
use hom_local.Permissions.Handlers.{Params, Store, text_or_null, revoked_payload, revoke_grants}
use hom_local.Permissions.Grants.{GrantFilter, grant_filter}
use hom_local.Permissions.Returns.{TakesRevocations, revoke_grants_returns}

module _ (ops : LedgerOps) (as_i64 : ops.serde.Number → Option ℤ) (next_id : LedgerStore → ℤ)
    (uuid : LedgerStore → String) where
  -- An event is appended, and its id is taken from the answer.
  unfoldable pub append_event :
      String
      → String
      → Option String
      → Value ops.serde.Number
      → ℤ
      → LedgerStore
      → Result String (LedgerStore × Option String)
  unfolding append_ledger_tx
  append_event event_type actor subject_id payload now s = do
    appended ← append_ledger_tx ops (next_id s) (uuid s) event_type actor subject_id payload now s
    ok (appended.0, some appended.1.event_id)

  -- The grants' interface, filled by the ledger
  abbrev pub on_ledger : GrantOps
  on_ledger = record {
    serde = ops.serde;
    as_i64 = as_i64;
    of_i64 = ops.of_i64;
    Ledger = LedgerStore;
    append_ledger = append_event;
  }

  optional-IsWritten :
      (depth : ℕ) (s : Option String)
      → QuotesAll ops.serde
      → ltb 32 depth ≡ false
      → IsWritten ops.serde depth (text_or_null s)
  optional-IsWritten depth none quotes shallow = null-IsWritten ops.serde depth shallow
  optional-IsWritten depth (some s) quotes shallow =
      string-IsWritten ops.serde depth s quotes shallow

  -- The payload of a revocation is an object of texts.
  revoked_payload-IsWritten :
      (depth : ℕ) (before : GrantRow) (id reason : String)
      → QuotesAll ops.serde
      → ltb 32 depth ≡ false
      → ltb 32 (depth + 1) ≡ false
      → IsWritten ops.serde depth (revoked_payload on_ledger before id reason)
  unfolding revoked_payload write_fields
  revoked_payload-IsWritten depth before id reason quotes shallow inner =
      let text = λ (s : String). string-IsWritten ops.serde (depth + 1) s quotes inner in
      object-IsWritten ops.serde depth (revoked_payload on_ledger before id reason) quotes shallow (
        text id,
        (
          text before.grant_kind,
          (
            text before.subject_id,
            (
              text before.grantee_id,
              (optional-IsWritten (depth + 1) before.capability_id quotes inner, (text reason, tt)),
            ),
          ),
        ),
      )

  -- The ledger takes the event of every revocation: its payload is an object of texts.
  on_ledger-TakesRevocations : QuotesAll ops.serde → WritesTimes ops → TakesRevocations on_ledger
  unfolding append_event
  on_ledger-TakesRevocations quotes times before id reason actor now s =
      let (appended, e) =
        append_ledger_tx-returns ops (next_id s) now (uuid s) "permission.grant.revoked" actor
          (some before.subject_id) (revoked_payload on_ledger before id reason) s quotes times
          (revoked_payload-IsWritten 0 before id reason quotes refl refl)
          (revoked_payload-IsWritten 1 before id reason quotes refl refl) in
      ((appended.0, some appended.1.event_id), rw e refl)

  -- Once its parameters are read, a revocation returns rows and a store: every row that its loop
  -- looks up is there, and the ledger takes the event of each. serde_json writes every text and
  -- every i64.
  pub recorded_revocation_returns :
      (now : ℤ) (params : Params on_ledger) (reason actor : String) (s : Store on_ledger)
      (filter : GrantFilter)
      → QuotesAll ops.serde
      → WritesTimes ops
      → grant_filter params ≡ ok filter
      → (done : List GrantRow × Store on_ledger) × (revoke_grants on_ledger now params reason actor
            s
          ≡ ok done)
  recorded_revocation_returns now params reason actor s filter quotes times =
      revoke_grants_returns on_ledger now params reason actor s filter
        (on_ledger-TakesRevocations quotes times)

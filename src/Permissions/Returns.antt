-- ===== src/Permissions/Returns.antt =====
-- A revocation fails only on its parameters (crates/hom-brain/src/services/permissions.rs,
-- `revoke_grants`) and on the ledger: every row that its loop looks up is there.
use hom_local.Prelude.{
  String, Bool, true, ◌&&◌, List, [], ◌∷◌, ◌≡◌, refl, ok, inl, inr, Bool-cases, Option, some, All,
  All-imp, eq_iff, str_eq, or_left, or_right,
}
use hom_local.Prelude.Int.{ℤ, ltb_ℤ}
use hom_local.Permissions.{GrantOps, GrantRow}
use hom_local.Permissions.Grants.{
  GrantFilter, is_active, passes, grant_filter, has_id, update, set_revoked, ids_of, newest_first,
  insert_newest, grant_row_by_id_tx, active_grant_ids_tx,
}
use hom_local.Permissions.Handlers.{Store, Params, revoke_each, revoke_grants, revoked_payload}
use hom_local.Permissions.Single.{set_revoked-NoMore}
use hom_local.Permissions.Steps.{has_id-update}

found_by_id :
    (id : String) (rows : List GrantRow)
    → has_id id rows ≡ true
    → (r : GrantRow) × (grant_row_by_id_tx id rows ≡ ok r)
unfolding grant_row_by_id_tx
found_by_id id [] h = cc h
found_by_id id (r ∷ rows) h = elim (Bool-cases (str_eq r.id id)) [
  | inl same ↦ (r, rw same refl)
  | inr other ↦ let (found, e) = found_by_id id rows (rw other at h) in (found, rw other e)
]

-- Every id of a list is one of the table's.
abbrev Present : List GrantRow → String → Type 0
Present rows id = has_id id rows ≡ true

insert_newest-ids :
    (P : String → Type 0) (r : GrantRow) (rows : List GrantRow)
    → P r.id
    → All P (ids_of rows)
    → All P (ids_of (insert_newest r rows))
insert_newest-ids P r [] first others = (first, tt)
insert_newest-ids P r (s ∷ rows) first others =
    elim (Bool-cases (ltb_ℤ r.created_at_s s.created_at_s)) [
      | inl older ↦ rw older (others.0, insert_newest-ids P r rows first others.1)
      | inr newer ↦ rw newer (first, others)
    ]

newest_first-Present :
    (test : GrantRow → Bool) (rows : List GrantRow)
    → All (Present rows) (ids_of (newest_first test rows))
newest_first-Present test [] = tt
newest_first-Present test (r ∷ rows) =
    let others =
      All-imp (Present rows) (Present (r ∷ rows)) (ids_of (newest_first test rows))
        (λ id there. or_right (str_eq r.id id) there) (newest_first-Present test rows) in
    elim (Bool-cases (test r)) [
      | inl kept ↦ rw kept (
          insert_newest-ids (Present (r ∷ rows)) r (newest_first test rows)
            (or_left (has_id r.id rows) ((eq_iff r.id r.id).1 refl)) others)
      | inr dropped ↦ rw dropped others
    ]

module _ (ops : GrantOps) where
  -- The ledger takes the event of every revocation.
  abbrev pub TakesRevocations : Type 0
  TakesRevocations =
      (before : GrantRow) (id reason actor : String) (now : ℤ) (ledger : ops.Ledger)
      → (done : ops.Ledger × Option String) × (ops.append_ledger "permission.grant.revoked" actor
            (some before.subject_id) (revoked_payload ops before id reason) now ledger
          ≡ ok done)

  revoke_each-returns :
      (now : ℤ) (reason actor : String) (ids : List String) (s : Store ops)
      → TakesRevocations
      → All (Present s.grants) ids
      → (done : List GrantRow × Store ops) × (revoke_each ops now reason actor ids s ≡ ok done)
  unfolding revoke_each
  revoke_each-returns now reason actor [] s appends there = (([], s), refl)
  revoke_each-returns now reason actor (id ∷ ids) s appends there =
      let (before, found) = found_by_id id s.grants there.0 in
      let (appended, event) = appends before id reason actor now s.ledger in
      let rows = update (set_revoked now reason appended.1 id) s.grants in
      let stays = λ (i : String).
        has_id-update i (set_revoked now reason appended.1 id) s.grants
          (λ r. (set_revoked-NoMore now reason appended.1 id r).0) in
      let (after, again) = found_by_id id rows (rw (stays id) there.0) in
      let (rest, went_on) =
        revoke_each-returns now reason actor ids (record { grants = rows; ledger = appended.0 })
          appends (All-imp _ (Present rows) ids (λ i present. rw (stays i) present) there.1) in
      ((after ∷ rest.0, rest.1), rw (found, event, again, went_on) refl)

  -- Once its parameters are read, a revocation returns rows and a store, if the ledger takes the
  -- event of every revocation.
  pub revoke_grants_returns :
      (now : ℤ) (params : Params ops) (reason actor : String) (s : Store ops) (filter : GrantFilter)
      → TakesRevocations
      → grant_filter params ≡ ok filter
      → (done : List GrantRow × Store ops) × (revoke_grants ops now params reason actor s ≡ ok done)
  unfolding revoke_grants active_grant_ids_tx
  revoke_grants_returns now params reason actor s filter appends parsed =
      let (done, e) =
        revoke_each-returns now reason actor
          (ids_of (newest_first (λ r. is_active r && passes filter r) s.grants)) s appends
          (newest_first-Present (λ r. is_active r && passes filter r) s.grants) in
      (done, rw parsed e)

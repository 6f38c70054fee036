-- ===== src/Permissions/Steps.antt =====
-- Runs of the table of grants (crates/hom-brain/src/services/permissions.rs): creations,
-- refreshes and revocations in any order.
use mathlib.Core.Path.{subst}
use hom_local.Prelude.{
  String, false, List, [], ◌∷◌, ◌≡◌, refl, ok, inl, inr, Result-cases, ok-injective, Option, some,
  ap, ◌∙◌,
}
use hom_local.Prelude.Int.{ℤ}
use hom_local.Json.{canonical_json}
use hom_local.Permissions.{GrantOps, GrantRow}
use hom_local.Permissions.Grants.{
  key_of, update, supersede, set_revoked, upsert, has_id, grant_row_by_id_tx, grant_filter,
  active_grant_ids_tx,
}
use hom_local.Permissions.Handlers.{
  Input, Store, Params, create_or_refresh_grant, revoke_grants, revoke_each, new_grant, chosen_id,
  created_payload,
}
use hom_local.Permissions.Single.{Single, update-Single, set_revoked-NoMore, supersede-NoMore}
use hom_local.Permissions.Revoked.{revoke_each-step}
use hom_local.Permissions.Upsert.{
  update-All, every_row, upsert-Single, supersede-Single, supersede-HasScope, HasScope,
}

pub has_id-update :
    (id : String) (change : GrantRow → GrantRow) (rows : List GrantRow)
    → ((r : GrantRow) → (change r).id ≡ r.id)
    → has_id id (update change rows) ≡ has_id id rows
has_id-update id change [] same = refl
has_id-update id change (r ∷ rows) same = rw (same r, has_id-update id change rows same) refl

-- A run of the table: a new grant's id is fresh, as `Uuid::new_v4` gives it.
pub data GrantRun (ops : GrantOps) : Store ops → Store ops → Type 0 where
  start : {s : Store ops} → GrantRun ops s s
  created :
      {s t u : Store ops} (now : ℤ) (id actor : String) (grant : Input ops) (row : GrantRow)
      → GrantRun ops s t
      → has_id id t.grants ≡ false
      → create_or_refresh_grant ops now id grant actor t ≡ ok (row, u)
      → GrantRun ops s u
  revoked :
      {s t u : Store ops} (now : ℤ) (params : Params ops) (reason actor : String)
      (rows : List GrantRow)
      → GrantRun ops s t
      → revoke_grants ops now params reason actor t ≡ ok (rows, u)
      → GrantRun ops s u

module _ (ops : GrantOps) where
  -- What a creation that succeeds writes, and over what
  pub created-rows :
      (now : ℤ) (id actor : String) (grant : Input ops) (s : Store ops)
      (done : GrantRow × Store ops)
      → create_or_refresh_grant ops now id grant actor s ≡ ok done
      → (scope : String) × ((event : Option String) × (upsert
              (new_grant ops now
                (chosen_id ops id
                  (key_of grant)
                  scope
                  (update (supersede now (key_of grant) scope) s.grants))
                scope
                event
                grant)
              (update (supersede now (key_of grant) scope) s.grants)
            ≡ done.1.grants))
  unfolding create_or_refresh_grant
  created-rows now id actor grant s done h =
      elim (Result-cases (canonical_json ops.serde grant.scope)) [
        | inr (e, failed) ↦ cc (rw failed at h)
        | inl (scope, written) ↦
            let left = update (supersede now (key_of grant) scope) s.grants in
            let grant_id = chosen_id ops id (key_of grant) scope left in
            elim (Result-cases (
              ops.append_ledger "permission.grant.created" actor (some grant.subject_id)
                (created_payload ops grant_id grant) now s.ledger)) [
                  | inr (e, failed) ↦ cc (rw (written, failed) at h)
                  | inl (appended, event) ↦
                      elim (Result-cases (
                        grant_row_by_id_tx grant_id
                          (upsert (new_grant ops now grant_id scope appended.1 grant) left))) [
                            | inr (e, failed) ↦ cc (rw (written, event, failed) at h)
                            | inl (row, found) ↦ (
                              scope,
                              (
                                appended.1,
                                ap (λ d. d.1.grants)
                                    (ok-injective (rw (written, event, found) at h)),
                              ),
                            )
                          ]
                ]
      ]

  create_or_refresh_grant-Single :
      (now : ℤ) (id actor : String) (grant : Input ops) (s : Store ops)
      (done : GrantRow × Store ops)
      → has_id id s.grants ≡ false
      → create_or_refresh_grant ops now id grant actor s ≡ ok done
      → Single s.grants
      → Single done.1.grants
  unfolding new_grant
  create_or_refresh_grant-Single now id actor grant s done fresh h single =
      let (scope, (event, rows)) = created-rows now id actor grant s done h in
      let left = update (supersede now (key_of grant) scope) s.grants in
      subst Single rows (
        upsert-Single ops id (key_of grant) scope
          (new_grant ops now (chosen_id ops id (key_of grant) scope left) scope event grant) left
          refl refl
          (has_id-update id (supersede now (key_of grant) scope) s.grants
              (λ r. (supersede-NoMore now (key_of grant) scope r).0)
            ∙ fresh)
          (update-All (HasScope (key_of grant) scope) (supersede now (key_of grant) scope) s.grants
            (supersede-HasScope now (key_of grant) scope))
          (supersede-Single now (key_of grant) scope s.grants single))

  revoke_each-Single :
      (now : ℤ) (reason actor : String) (ids : List String) (s : Store ops)
      (done : List GrantRow × Store ops)
      → revoke_each ops now reason actor ids s ≡ ok done
      → Single s.grants
      → Single done.1.grants
  unfolding revoke_each
  revoke_each-Single now reason actor [] s done h single =
      subst (λ d. Single d.1.grants) (ok-injective h) single
  revoke_each-Single now reason actor (id ∷ ids) s done h single =
      let (event, (ledger, (rest, (went_on, same)))) =
        revoke_each-step ops now reason actor id ids s done h in
      subst (λ t. Single t.grants) same
        (revoke_each-Single now reason actor ids _ rest went_on (
          update-Single (set_revoked now reason event id) s.grants
            (every_row _ s.grants (set_revoked-NoMore now reason event id)) single))

  revoke_grants-Single :
      (now : ℤ) (params : Params ops) (reason actor : String) (s : Store ops)
      (done : List GrantRow × Store ops)
      → revoke_grants ops now params reason actor s ≡ ok done
      → Single s.grants
      → Single done.1.grants
  unfolding revoke_grants
  revoke_grants-Single now params reason actor s done h single =
      elim (Result-cases (grant_filter params)) [
        | inr (e, failed) ↦ cc (rw failed at h)
        | inl (filter, parsed) ↦
            revoke_each-Single now reason actor (active_grant_ids_tx filter s.grants) s done
              (rw parsed at h) single
      ]

  -- A run that starts with distinct ids and at most one active grant of each key ends so.
  pub run-Single : {s t : Store ops} → GrantRun ops s t → Single s.grants → Single t.grants
  run-Single start single = single
  run-Single (created now id actor grant row before fresh h) single =
      create_or_refresh_grant-Single now id actor grant _ (row, _) fresh h
        (run-Single before single)
  run-Single (revoked now params reason actor rows before h) single =
      revoke_grants-Single now params reason actor _ (rows, _) h (run-Single before single)

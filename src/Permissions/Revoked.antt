-- ===== src/Permissions/Revoked.antt =====
-- What a revocation leaves (crates/hom-brain/src/services/permissions.rs, `revoke_grants`).
use hom_local.Prelude.{
  String, Bool, true, false, ◌&&◌, ◌||◌, List, [], ◌∷◌, ◌≡◌, refl, ok, inl, inr, Bool-cases,
  Result-cases, Option, some, All, All-imp, or_left, or_right, or_swap, eq_iff, sym, ap,
  ok-injective, str_eq,
}
use mathlib.Core.Path.{subst}
use hom_local.Prelude.Int.{ℤ, ltb_ℤ}
use hom_local.Codes.{any_piece}
use hom_local.Permissions.{GrantOps, GrantRow}
use hom_local.Permissions.Grants.{
  GrantFilter, grant_filter, passes, is_active, update, set_revoked, active_grant_ids_tx, ids_of,
  newest_first, insert_newest, grant_row_by_id_tx,
}
use hom_local.Permissions.Handlers.{Store, Params, revoke_each, revoke_grants, revoked_payload}

-- Whether an id is among those that are left to revoke.
is_left : String → List String → Bool
is_left id ids = any_piece (λ i. str_eq id i) ids

insert_newest-left :
    (id : String) (r : GrantRow) (rows : List GrantRow)
    → is_left id (ids_of (insert_newest r rows)) ≡ (str_eq id r.id || is_left id (ids_of rows))
unfolding is_left
insert_newest-left id r [] = refl
insert_newest-left id r (s ∷ rows) = elim (Bool-cases (ltb_ℤ r.created_at_s s.created_at_s)) [
  | inl older ↦
      rw (older, insert_newest-left id r rows)
        (or_swap (str_eq id s.id) (str_eq id r.id) (is_left id (ids_of rows)))
  | inr newer ↦ rw newer refl
]

-- Every row that passes a test is among those that are left to revoke.
Kept : (GrantRow → Bool) → List String → GrantRow → Type 0
Kept test ids r = test r ≡ true → is_left r.id ids ≡ true

newest_first-kept :
    (test : GrantRow → Bool) (r : GrantRow) (rows : List GrantRow)
    → test r ≡ true
    → newest_first test (r ∷ rows) ≡ insert_newest r (newest_first test rows)
newest_first-kept test r rows h = rw h refl

newest_first-dropped :
    (test : GrantRow → Bool) (r : GrantRow) (rows : List GrantRow)
    → test r ≡ false
    → newest_first test (r ∷ rows) ≡ newest_first test rows
newest_first-dropped test r rows h = rw h refl

insert_newest-Kept :
    (test : GrantRow → Bool) (r : GrantRow) (rows all : List GrantRow)
    → All (Kept test (ids_of rows)) all
    → All (Kept test (ids_of (insert_newest r rows))) (r ∷ all)
unfolding Kept
insert_newest-Kept test r rows all held = (
  (λ h.
      rw (insert_newest-left r.id r rows)
        (or_left (is_left r.id (ids_of rows)) ((eq_iff r.id r.id).1 refl))),
  All-imp _ _ all
      (λ s kept h. rw (insert_newest-left s.id r rows) (or_right (str_eq s.id r.id) (kept h))) held,
)

Kept-dropped :
    (test : GrantRow → Bool) (r : GrantRow) (ids : List String) → test r ≡ false → Kept test ids r
unfolding Kept
Kept-dropped test r ids dropped h = cc

newest_first-Kept :
    (test : GrantRow → Bool) (rows : List GrantRow)
    → All (Kept test (ids_of (newest_first test rows))) rows
newest_first-Kept test [] = tt
newest_first-Kept test (r ∷ rows) = elim (Bool-cases (test r)) [
  | inl kept ↦
      subst (λ l. All (Kept test (ids_of l)) (r ∷ rows)) (sym (newest_first-kept test r rows kept))
        (insert_newest-Kept test r (newest_first test rows) rows (newest_first-Kept test rows))
  | inr dropped ↦
      subst (λ l. All (Kept test (ids_of l)) (r ∷ rows))
        (sym (newest_first-dropped test r rows dropped))
        (Kept-dropped test r (ids_of (newest_first test rows)) dropped, newest_first-Kept test rows)
]

-- One turn of the loop
set_revoked-Kept :
    (test : GrantRow → Bool) (now : ℤ) (reason : String) (event : Option String) (id : String)
    (ids : List String) (r : GrantRow)
    → Kept (λ r. is_active r && test r) (id ∷ ids) r
    → Kept (λ r. is_active r && test r) ids (set_revoked now reason event id r)
unfolding Kept set_revoked is_left
set_revoked-Kept test now reason event id ids r held = elim (Bool-cases (str_eq r.id id)) [
  | inl same ↦ rw same (λ h. cc)
  | inr other ↦ rw other (rw other at held)
]

update-Kept :
    (P Q : GrantRow → Type 0) (change : GrantRow → GrantRow) (rows : List GrantRow)
    → ((r : GrantRow) → P r → Q (change r))
    → All P rows
    → All Q (update change rows)
update-Kept P Q change [] step held = tt
update-Kept P Q change (r ∷ rows) step held =
    (step r held.0, update-Kept P Q change rows step held.1)

Kept-none : (test : GrantRow → Bool) (r : GrantRow) → Kept test [] r → test r ≡ false
unfolding Kept is_left
Kept-none test r held = elim (Bool-cases (test r)) [
  | inl passed ↦ cc (held passed)
  | inr no_longer ↦ no_longer
]

module _ (ops : GrantOps) where
  -- Whether a row is still active although the filter lets it pass.
  abbrev pub IsGone : GrantFilter → GrantRow → Type 0
  IsGone filter r = (is_active r && passes filter r) ≡ false

  -- What one turn of the loop that succeeds hands to the next
  pub revoke_each-step :
      (now : ℤ) (reason actor id : String) (ids : List String) (s : Store ops)
      (done : List GrantRow × Store ops)
      → revoke_each ops now reason actor (id ∷ ids) s ≡ ok done
      → (event : Option String) × ((ledger : ops.Ledger) × ((rest : List GrantRow × Store ops)
            × ((revoke_each ops now reason actor ids (record {
              grants = update (set_revoked now reason event id) s.grants;
              ledger = ledger;
            })
                  ≡ ok rest)
                × (rest.1 ≡ done.1))))
  unfolding revoke_each
  revoke_each-step now reason actor id ids s done h =
      elim (Result-cases (grant_row_by_id_tx id s.grants)) [
        | inr (e, failed) ↦ cc (rw failed at h)
        | inl (before, found) ↦
            elim (Result-cases (
              ops.append_ledger "permission.grant.revoked" actor (some before.subject_id)
                (revoked_payload ops before id reason) now s.ledger)) [
                  | inr (e, failed) ↦ cc (rw (found, failed) at h)
                  | inl (appended, event) ↦
                      let rows = update (set_revoked now reason appended.1 id) s.grants in
                      elim (Result-cases (grant_row_by_id_tx id rows)) [
                        | inr (e, failed) ↦ cc (rw (found, event, failed) at h)
                        | inl (after, again) ↦
                            elim (Result-cases (
                              revoke_each ops now reason actor ids
                                (record { grants = rows; ledger = appended.0 }))) [
                                  | inr (e, failed) ↦ cc (rw (found, event, again, failed) at h)
                                  | inl (rest, went_on) ↦ (
                                    appended.1,
                                    (
                                      appended.0,
                                      (
                                        rest,
                                        (
                                          went_on,
                                          ap (λ d. d.1)
                                              (ok-injective
                                                (rw (found, event, again, went_on) at h)),
                                        ),
                                      ),
                                    ),
                                  )
                                ]
                      ]
                ]
      ]

  revoke_each-IsGone :
      (filter : GrantFilter) (now : ℤ) (reason actor : String) (ids : List String) (s : Store ops)
      (done : List GrantRow × Store ops)
      → All (Kept (λ r. is_active r && passes filter r) ids) s.grants
      → revoke_each ops now reason actor ids s ≡ ok done
      → All (IsGone filter) done.1.grants
  unfolding revoke_each
  revoke_each-IsGone filter now reason actor [] s done kept h =
      subst (λ d. All (IsGone filter) d.1.grants) (ok-injective h)
        (All-imp _ (IsGone filter) s.grants (Kept-none (λ r. is_active r && passes filter r)) kept)
  revoke_each-IsGone filter now reason actor (id ∷ ids) s done kept h =
      let (event, (ledger, (rest, (went_on, same)))) =
        revoke_each-step now reason actor id ids s done h in
      subst (λ t. All (IsGone filter) t.grants) same
        (revoke_each-IsGone filter now reason actor ids _ rest
          (update-Kept _ _ (set_revoked now reason event id) s.grants
            (set_revoked-Kept (passes filter) now reason event id ids) kept)
          went_on)

  -- After a revocation that succeeds, no active row passes the filter of its parameters.
  pub revoke_grants-IsGone :
      (now : ℤ) (params : Params ops) (reason actor : String) (s : Store ops)
      (done : List GrantRow × Store ops) (filter : GrantFilter)
      → grant_filter params ≡ ok filter
      → revoke_grants ops now params reason actor s ≡ ok done
      → All (IsGone filter) done.1.grants
  unfolding revoke_grants active_grant_ids_tx
  revoke_grants-IsGone now params reason actor s done filter parsed h =
      revoke_each-IsGone filter now reason actor
        (ids_of (newest_first (λ r. is_active r && passes filter r) s.grants)) s done
        (newest_first-Kept (λ r. is_active r && passes filter r) s.grants) (rw parsed at h)

-- ===== src/Permissions/Failures.antt =====
-- The errors of a revocation (crates/hom-brain/src/services/permissions.rs, `revoke_grants`): none
-- of them is the one that `revoke_system_grant_if_present` takes for an empty revocation.
use Prim.Native.Char.{Char, code}
use Prim.Native.String.{◌++◌ as append}
use Prim.Native.String.append.{cons}
use hom_local.Prelude.{
  String, true, false, ◌==◌, ap, List, [], ◌∷◌, ◌≡◌, refl, ok, err, inl, inr, Bool-cases,
  Result-cases, str_eq, eq_iff, some, sym, Result, Option-cases,
}
use hom_local.Prelude.Int.{ℤ}
use hom_local.Permissions.{RpcError, GrantOps, GrantRow}
use hom_local.Permissions.Grants.{
  row_by_id, grant_row_by_id_tx, update, set_revoked, active_grant_ids_tx, GrantFilter,
  grant_filter,
}
use hom_local.Permissions.Handlers.{Store, Params, revoke_each, revoked_payload, revoke_grants}

err-injective : {A : Type 0} {x e : RpcError} → Path (Result RpcError A) (err x) (err e) → x ≡ e
err-injective h = cc

abbrev pub not_found : String
not_found = "grant_not_found_or_inactive"

peel :
    (c d : Char) (s t u : String)
    → append (String.◌∷◌ c s) t ≡ String.◌∷◌ d u
    → (c ≡ d) × (append s t ≡ u)
peel c d s t u h =
    let step : append (String.◌∷◌ c s) t ≡ String.◌∷◌ c (append s t) = cons c s t in
    (cc (step, h), cc (step, h))

r_is_not_n : ¬ Path Char "r" "n"
r_is_not_n h = let same : true ≡ false = ap (λ c. code c == b'r') h in cc

append_failed : (e : String) → str_eq (append "grant_revoke_ledger_append: " e) not_found ≡ false
append_failed e = elim (Bool-cases (str_eq (append "grant_revoke_ledger_append: " e) not_found)) [
  | inl same ↦
      let one =
        (peel "g" "g" "rant_revoke_ledger_append: " e "rant_not_found_or_inactive"
          ((eq_iff (append "grant_revoke_ledger_append: " e) not_found).0 same)).1 in
      let two = (peel "r" "r" "ant_revoke_ledger_append: " e "ant_not_found_or_inactive" one).1 in
      let three = (peel "a" "a" "nt_revoke_ledger_append: " e "nt_not_found_or_inactive" two).1 in
      let four = (peel "n" "n" "t_revoke_ledger_append: " e "t_not_found_or_inactive" three).1 in
      let five = (peel "t" "t" "_revoke_ledger_append: " e "_not_found_or_inactive" four).1 in
      let six = (peel "_" "_" "revoke_ledger_append: " e "not_found_or_inactive" five).1 in
      absurd (r_is_not_n (peel "r" "n" "evoke_ledger_append: " e "ot_found_or_inactive" six).0)
  | inr other ↦ other
]

lookup_failed :
    (id : String) (rows : List GrantRow) (e : RpcError)
    → grant_row_by_id_tx id rows ≡ err e
    → str_eq e.message not_found ≡ false
unfolding grant_row_by_id_tx
lookup_failed id rows e h = elim (Option-cases (row_by_id id rows)) [
  | inr (row, found) ↦ cc (rw found at h)
  | inl missing ↦ rw (sym (err-injective (rw missing at h))) refl
]

revoke_each-error :
    (ops : GrantOps) (now : ℤ) (reason actor : String) (ids : List String) (s : Store ops)
    (e : RpcError)
    → revoke_each ops now reason actor ids s ≡ err e
    → str_eq e.message not_found ≡ false
unfolding revoke_each grant_row_by_id_tx
revoke_each-error ops now reason actor [] s e h = cc h
revoke_each-error ops now reason actor (id ∷ ids) s e h =
    elim (Result-cases (grant_row_by_id_tx id s.grants)) [
      | inr (x, missing) ↦
          rw (sym (err-injective (rw missing at h))) (lookup_failed id s.grants x missing)
      | inl (before, found) ↦
          elim (Result-cases (
            ops.append_ledger "permission.grant.revoked" actor (some before.subject_id)
              (revoked_payload ops before id reason) now s.ledger)) [
                | inr (x, failed) ↦
                    rw (sym (err-injective (rw (found, failed) at h))) (append_failed x)
                | inl (appended, event) ↦
                    let rows = update (set_revoked now reason appended.1 id) s.grants in
                    elim (Result-cases (grant_row_by_id_tx id rows)) [
                      | inr (x, missing) ↦
                          rw (sym (err-injective (rw (found, event, missing) at h)))
                            (lookup_failed id rows x missing)
                      | inl (after, again) ↦
                          elim (Result-cases (
                            revoke_each ops now reason actor ids
                              (record { grants = rows; ledger = appended.0 }))) [
                                | inl (rest, went_on) ↦ cc (rw (found, event, again, went_on) at h)
                                | inr (x, stopped) ↦
                                    rw
                                      (sym (err-injective (rw (found, event, again, stopped) at h)))
                                      (revoke_each-error ops now reason actor ids
                                        (record { grants = rows; ledger = appended.0 }) x stopped)
                              ]
                    ]
              ]
    ]

-- Once its parameters are read, an error of a revocation has a message of its own.
pub revoke_grants-error :
    (ops : GrantOps) (now : ℤ) (params : Params ops) (reason actor : String) (s : Store ops)
    (filter : GrantFilter) (e : RpcError)
    → grant_filter params ≡ ok filter
    → revoke_grants ops now params reason actor s ≡ err e
    → str_eq e.message not_found ≡ false
unfolding revoke_grants
revoke_grants-error ops now params reason actor s filter e parsed h =
    revoke_each-error ops now reason actor (active_grant_ids_tx filter s.grants) s e
      (rw parsed at h)

-- ===== src/Permissions/Check.antt =====
-- Checking a grant after it is created
-- (crates/hom-brain/src/services/permissions.rs, `require_active_grant`).
use mathlib.Core.Path.{subst}
use hom_local.Prelude.{
  String, Bool, true, false, ◌&&◌, List, [], ◌∷◌, ◌++◌, ◌≡◌, refl, sym, ok, inl, inr, Bool-cases,
  Option-cases, none, some, eq_iff, str_eq, or_left, or_right, ◌∙◌,
}
use hom_local.Prelude.Int.{ℤ, ltb_ℤ}
use hom_local.Codes.{any_piece}
use hom_local.Permissions.{GrantOps, GrantRow, option_or}
use hom_local.Permissions.Grants.{
  GrantKey, key_of, has_key, is_active, is_unexpired, update, supersede, refresh, upsert, has_id,
  latest, require_active_grant,
}
use hom_local.Permissions.Handlers.{
  Input, Store, create_or_refresh_grant, new_grant, chosen_id, is_existing,
}
use hom_local.Permissions.Single.{supersede-NoMore, row_key}
use hom_local.Permissions.Latest.{latest-cases, latest-passes, latest-some, latest-has_id}
use hom_local.Permissions.Upsert.{upsert-new, upsert-old}
use hom_local.Permissions.Steps.{created-rows, has_id-update}

any_append :
    (test : GrantRow → Bool) (rows : List GrantRow) (w : GrantRow)
    → test w ≡ true
    → any_piece test (rows ++ (w ∷ [])) ≡ true
any_append test [] w h = rw h refl
any_append test (r ∷ rows) w h = or_right (test r) (any_append test rows w h)

-- The newest row that passes one test stays in the table, changed.
any_update :
    (test found : GrantRow → Bool) (change : GrantRow → GrantRow) (e : GrantRow)
    (rows : List GrantRow)
    → latest found rows ≡ some e
    → test (change e) ≡ true
    → any_piece test (update change rows) ≡ true
unfolding latest
any_update test found change e [] h passed = cc h
any_update test found change e (r ∷ rows) h passed = elim (latest-cases found r e rows h) [
  | inl (of_r, same) ↦
      or_left (any_piece test (update change rows))
        (subst (λ x. test (change x) ≡ true) (sym same) passed)
  | inr other ↦ or_right (test (change r)) (any_update test found change e rows other passed)
]

module _ (ops : GrantOps) where
  -- What is checked of a grant at a time
  unfoldable pub passes_check : ℤ → GrantKey → GrantRow → Bool
  passes_check now key r = has_key key r && (is_active r && is_unexpired now r)

  has_key_self : (w : GrantRow) (key : GrantKey) → row_key w ≡ key → has_key key w ≡ true
  unfolding has_key
  has_key_self w key same =
      subst (λ k. has_key k w ≡ true) same
        (rw
          (
            (eq_iff w.grant_kind w.grant_kind).1 refl,
            (eq_iff w.subject_id w.subject_id).1 refl,
            (eq_iff w.grantee_id w.grantee_id).1 refl,
          )
          ((eq_iff (option_or "" w.capability_id) (option_or "" w.capability_id)).1 refl))

  refreshed_passes :
      (now : ℤ) (key : GrantKey) (w e : GrantRow)
      → str_eq e.id w.id ≡ true
      → has_key key e ≡ true
      → is_unexpired now w ≡ true
      → passes_check now key (refresh w e) ≡ true
  unfolding passes_check refresh has_key is_unexpired
  refreshed_passes now key w e same has unexpired = rw (same, has, unexpired) refl

  existing_has_key :
      (key : GrantKey) (scope : String) (e : GrantRow)
      → is_existing ops key scope e ≡ true
      → has_key key e ≡ true
  unfolding is_existing
  existing_has_key key scope e h = elim (Bool-cases (has_key key e)) [
    | inl has ↦ has
    | inr other ↦ cc (rw other at h)
  ]

  upsert_passes :
      (id : String) (key : GrantKey) (scope : String) (w : GrantRow) (left : List GrantRow)
      (now : ℤ)
      → row_key w ≡ key
      → w.id ≡ chosen_id ops id key scope left
      → is_active w ≡ true
      → is_unexpired now w ≡ true
      → has_id id left ≡ false
      → any_piece (passes_check now key) (upsert w left) ≡ true
  unfolding passes_check chosen_id
  upsert_passes id key scope w left now keys chosen active unexpired fresh =
      elim (Option-cases (latest (is_existing ops key scope) left)) [
        | inl missing ↦
            let same : w.id ≡ id = rw (chosen_id, missing) at chosen in
            rw (upsert-new w left (rw same fresh)) (
              any_append (passes_check now key) left w
                (rw (has_key_self w key keys, active, unexpired) refl))
        | inr (e, found) ↦
            let same : w.id ≡ e.id = rw (chosen_id, found) at chosen in
            rw
              (upsert-old w left (rw same (latest-has_id (is_existing ops key scope) e left found)))
              (any_update (passes_check now key) (is_existing ops key scope) (refresh w) e left
                found
                (refreshed_passes now key w e ((eq_iff e.id w.id).1 (sym same))
                  (existing_has_key key scope e
                    (latest-passes (is_existing ops key scope) e left found))
                  unexpired))
      ]

  -- Whether what is asked for is not expired at a time
  abbrev pub outlives : ℤ → Input ops → Bool
  outlives now grant = elim grant.expires_at_s [ none ↦ true | some expiry ↦ ltb_ℤ now expiry ]

  -- A grant that is created or refreshed is found by a check of its kind, subject, grantee and
  -- capability at every time before its expiry, whether or not such a grant was there before, when the
  -- new id is fresh.
  pub created_can_check :
      (now later : ℤ) (id actor message : String) (grant : Input ops) (s : Store ops)
      (done : GrantRow × Store ops)
      → has_id id s.grants ≡ false
      → create_or_refresh_grant ops now id grant actor s ≡ ok done
      → outlives later grant ≡ true
      → (r : GrantRow) × (require_active_grant later (key_of grant) message done.1.grants ≡ ok r)
  unfolding require_active_grant new_grant is_unexpired passes_check
  created_can_check now later id actor message grant s done fresh h lasting =
      let (scope, (event, rows)) = created-rows ops now id actor grant s done h in
      let left = update (supersede now (key_of grant) scope) s.grants in
      let (r, found) = latest-some (passes_check later (key_of grant)) done.1.grants (
        subst (λ g. any_piece (passes_check later (key_of grant)) g ≡ true) rows
          (upsert_passes id (key_of grant) scope
            (new_grant ops now (chosen_id ops id (key_of grant) scope left) scope event grant) left
            later refl refl refl lasting
            (has_id-update id (supersede now (key_of grant) scope) s.grants
                (λ r. (supersede-NoMore now (key_of grant) scope r).0)
              ∙ fresh))) in
      (r, rw found refl)

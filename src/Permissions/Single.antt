-- ===== src/Permissions/Single.antt =====
-- At most one active grant of a key (crates/hom-brain/src/services/permissions.rs): the table's ids
-- are distinct, and no two rows that are active have the same kind, subject, grantee and capability.
use hom_local.Prelude.{
  String, true, false, not, ◌&&◌, List, [], ◌∷◌, ◌≡◌, refl, inl, inr, Bool-cases, Option, All,
  All-imp, str_eq,
}
use hom_local.Prelude.Int.{ℤ}
use hom_local.Permissions.{GrantRow}
use hom_local.Permissions.Grants.{
  GrantKey, has_key, is_active, update, supersede, set_revoked, refresh,
}

abbrev pub row_key : GrantRow → GrantKey
row_key r = record {
  grant_kind = r.grant_kind;
  subject_id = r.subject_id;
  grantee_id = r.grantee_id;
  capability_id = r.capability_id;
}

-- Two rows with different ids that are not both active grants of one key.
abbrev pub Apart : GrantRow → GrantRow → Type 0
Apart r s =
    (str_eq r.id s.id ≡ false) × ((is_active r && (is_active s && has_key (row_key s) r)) ≡ false)

abbrev pub Single : List GrantRow → Type 0
Single [] = Unit
Single (r ∷ rows) = All (Apart r) rows × Single rows

-- A changed row that keeps its id and its key, and is active only if it was.
abbrev pub NoMore : GrantRow → GrantRow → Type 0
NoMore r changed =
    (changed.id ≡ r.id)
    × ((row_key changed ≡ row_key r)
        × ((is_active changed ≡ true → is_active r ≡ true)
            × ((key : GrantKey) → has_key key changed ≡ has_key key r)))

Apart-NoMore : (r s r' s' : GrantRow) → NoMore r r' → NoMore s s' → Apart r s → Apart r' s'
Apart-NoMore r s r' s' (id_r, (key_r, (active_r, has_r))) (id_s, (key_s, (active_s, has_s)))
      (ids, keys) =
    (
      rw (id_r, id_s) ids,
      elim (Bool-cases (is_active r')) [
        | inr idle ↦ rw idle refl
        | inl live ↦ elim (Bool-cases (is_active s')) [
          | inr idle ↦ rw (live, idle) refl
          | inl also ↦
              rw (live, also, key_s, has_r (row_key s)) (rw (active_r live, active_s also) at keys)
        ]
      ],
    )

All-update :
    (P Q : GrantRow → Type 0) (change : GrantRow → GrantRow) (rows : List GrantRow)
    → All (λ r. P r → Q (change r)) rows
    → All P rows
    → All Q (update change rows)
All-update P Q change [] step held = tt
All-update P Q change (r ∷ rows) step held =
    (step.0 held.0, All-update P Q change rows step.1 held.1)

pub update-Single :
    (change : GrantRow → GrantRow) (rows : List GrantRow)
    → All (λ r. NoMore r (change r)) rows
    → Single rows
    → Single (update change rows)
update-Single change [] tame single = tt
update-Single change (r ∷ rows) tame single = (
  All-update (Apart r) (Apart (change r)) change rows
      (All-imp _ _ rows (λ s held apart. Apart-NoMore r s (change r) (change s) tame.0 held apart)
        tame.1)
      single.0,
  update-Single change rows tame.1 single.1,
)

pub supersede-NoMore :
    (now : ℤ) (key : GrantKey) (scope : String) (r : GrantRow)
    → NoMore r (supersede now key scope r)
unfolding supersede has_key
supersede-NoMore now key scope r =
    elim (Bool-cases (has_key key r && (is_active r && not (str_eq r.scope_json scope)))) [
      | inl changed ↦ rw changed (refl, (refl, ((λ h. cc), λ k. refl)))
      | inr same ↦ rw same (refl, (refl, ((λ h. h), λ k. refl)))
    ]

pub set_revoked-NoMore :
    (now : ℤ) (reason : String) (event : Option String) (id : String) (r : GrantRow)
    → NoMore r (set_revoked now reason event id r)
unfolding set_revoked has_key
set_revoked-NoMore now reason event id r = elim (Bool-cases (str_eq r.id id)) [
  | inl changed ↦ rw changed (refl, (refl, ((λ h. cc), λ k. refl)))
  | inr same ↦ rw same (refl, (refl, ((λ h. h), λ k. refl)))
]

pub refresh-NoMore :
    (written r : GrantRow)
    → (str_eq r.id written.id ≡ true → is_active r ≡ true)
    → NoMore r (refresh written r)
unfolding refresh has_key
refresh-NoMore written r was = elim (Bool-cases (str_eq r.id written.id)) [
  | inl changed ↦ rw changed (refl, (refl, ((λ h. was changed), λ k. refl)))
  | inr same ↦ rw same (refl, (refl, ((λ h. h), λ k. refl)))
]

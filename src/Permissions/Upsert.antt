-- ===== src/Permissions/Upsert.antt =====
-- Creating or refreshing a grant keeps grants single (crates/hom-brain/src/services/permissions.rs,
-- `create_or_refresh_grant`).
use mathlib.Core.Path.{subst}
use hom_local.Prelude.{
  String, Bool, true, false, not, ◌&&◌, List, [], ◌∷◌, ◌++◌, ◌≡◌, refl, sym, inl, inr, Bool-cases,
  Option-cases, All, All-imp, All-append, and_false, str_eq,
}
use hom_local.Prelude.Int.{ℤ}
use hom_local.Permissions.{GrantOps, GrantRow}
use hom_local.Permissions.Grants.{
  GrantKey, has_key, is_active, update, supersede, refresh, upsert, has_id, latest,
}
use hom_local.Permissions.Handlers.{is_existing, chosen_id}
use hom_local.Permissions.Single.{
  Apart, Single, row_key, update-Single, supersede-NoMore, refresh-NoMore,
}
use hom_local.Permissions.Latest.{latest-same_id, latest-has_id, latest-none}

pub every_row : (P : GrantRow → Type 0) (rows : List GrantRow) → ((r : GrantRow) → P r) → All P rows
every_row P [] held = tt
every_row P (r ∷ rows) held = (held r, every_row P rows held)

pub update-All :
    (P : GrantRow → Type 0) (change : GrantRow → GrantRow) (rows : List GrantRow)
    → ((r : GrantRow) → P (change r))
    → All P (update change rows)
update-All P change [] held = tt
update-All P change (r ∷ rows) held = (held r, update-All P change rows held)

pub supersede-Single :
    (now : ℤ) (key : GrantKey) (scope : String) (rows : List GrantRow)
    → Single rows
    → Single (update (supersede now key scope) rows)
supersede-Single now key scope rows single =
    update-Single (supersede now key scope) rows (every_row _ rows (supersede-NoMore now key scope))
      single

not-false : (b : Bool) → not b ≡ false → b ≡ true
not-false true h = refl
not-false false h = cc h

-- What a superseding leaves active of a key has the new scope.
unfoldable pub HasScope : GrantKey → String → GrantRow → Type 0
HasScope key scope r = has_key key r ≡ true → is_active r ≡ true → str_eq r.scope_json scope ≡ true

pub supersede-HasScope :
    (now : ℤ) (key : GrantKey) (scope : String) (r : GrantRow)
    → HasScope key scope (supersede now key scope r)
unfolding HasScope supersede
supersede-HasScope now key scope r =
    elim (Bool-cases (has_key key r && (is_active r && not (str_eq r.scope_json scope)))) [
      | inl changed ↦ rw changed (λ has live. cc live)
      | inr same ↦ rw same (λ has live. not-false _ (rw (has, live) at same))
    ]

append-Single :
    (rows : List GrantRow) (w : GrantRow)
    → All (λ r. Apart r w) rows
    → Single rows
    → Single (rows ++ (w ∷ []))
append-Single [] w apart single = (tt, tt)
append-Single (r ∷ rows) w apart single = (
  All-append (Apart r) rows (w ∷ []) single.0 (apart.0, tt),
  append-Single rows w apart.1 single.1,
)

All-both :
    (P Q : GrantRow → Type 0) (rows : List GrantRow)
    → All P rows
    → All Q rows
    → All (λ r. P r × Q r) rows
All-both P Q [] held also = tt
All-both P Q (r ∷ rows) held also = ((held.0, also.0), All-both P Q rows held.1 also.1)

other_ids :
    (id : String) (rows : List GrantRow)
    → has_id id rows ≡ false
    → All (λ r. str_eq r.id id ≡ false) rows
other_ids id [] h = tt
other_ids id (r ∷ rows) h = elim (Bool-cases (str_eq r.id id)) [
  | inl same ↦ cc (rw same at h)
  | inr other ↦ (other, other_ids id rows (rw other at h))
]

existing_is_active : (a b c : Bool) → (a && (b && c)) ≡ true → c ≡ true
existing_is_active true true c h = h
existing_is_active true false c h = cc h
existing_is_active false b c h = cc h

pub upsert-new :
    (w : GrantRow) (rows : List GrantRow)
    → has_id w.id rows ≡ false
    → upsert w rows ≡ rows ++ (w ∷ [])
unfolding upsert
upsert-new w rows h = rw h refl

pub upsert-old :
    (w : GrantRow) (rows : List GrantRow)
    → has_id w.id rows ≡ true
    → upsert w rows ≡ update (refresh w) rows
unfolding upsert
upsert-old w rows h = rw h refl

module _ (ops : GrantOps) where
  clear-Apart :
      (key : GrantKey) (scope : String) (r w : GrantRow)
      → row_key w ≡ key
      → str_eq r.id w.id ≡ false
      → is_existing ops key scope r ≡ false
      → HasScope key scope r
      → Apart r w
  unfolding is_existing HasScope
  clear-Apart key scope r w keys ids missing scoped = (
    ids,
    elim (Bool-cases (is_active r)) [
      | inr idle ↦ rw idle refl
      | inl live ↦ elim (Bool-cases (has_key key r)) [
        | inr other ↦
            rw (live, subst (λ k. has_key k r ≡ false) (sym keys) other) (and_false (is_active w))
        | inl has ↦ cc (rw (has, live, scoped has live) at missing)
      ]
    ],
  )

  pub upsert-Single :
      (id : String) (key : GrantKey) (scope : String) (w : GrantRow) (left : List GrantRow)
      → row_key w ≡ key
      → w.id ≡ chosen_id ops id key scope left
      → has_id id left ≡ false
      → All (HasScope key scope) left
      → Single left
      → Single (upsert w left)
  unfolding chosen_id is_existing
  upsert-Single id key scope w left keys chosen fresh scoped single =
      elim (Option-cases (latest (is_existing ops key scope) left)) [
        | inl missing ↦
            let same : w.id ≡ id = rw (chosen_id, missing) at chosen in
            rw (upsert-new w left (rw same fresh)) (
              append-Single left w
                (All-imp _ (λ r. Apart r w) left
                  (λ r clear. clear-Apart key scope r w keys (rw same clear.0) clear.1.0 clear.1.1)
                  (All-both _ _ left (other_ids id left fresh) (
                    All-both _ _ left (latest-none (is_existing ops key scope) left missing)
                      scoped)))
                single)
        | inr (e, found) ↦
            let same : w.id ≡ e.id = rw (chosen_id, found) at chosen in
            rw
              (upsert-old w left (rw same (latest-has_id (is_existing ops key scope) e left found)))
              (update-Single (refresh w) left
                (All-imp _ _ left
                  (λ r was. refresh-NoMore w r (λ eq.
                    existing_is_active (has_key key r) (str_eq r.scope_json scope) (is_active r)
                      (was (rw same at eq))))
                  (latest-same_id (is_existing ops key scope) e left found single))
                single)
      ]

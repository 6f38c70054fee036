-- ===== src/Json/Laws.antt =====
-- The canonical text of a value (crates/hom-shared/src/canonical_json.rs): it does not depend on
-- the order of the keys of the value's objects, and it is refused below depth 32.
use hom_local.Json.Order.{text_le, text_le_total, text_le_trans, text_le_antisym}
use hom_local.Json.{
  Serde, Value, array, object, Items, nil, cons, Fields, end, field, Entry, insert_entry,
  sort_entries, join_items, join_entries, finish, guarded, write_value, write_items, write_fields,
  canonical_json,
}
use hom_local.Prelude.{
  ℕ, ◌+◌, String, true, List, [], ◌∷◌, ◌≡◌, refl, ap, ◌∙◌, ◌≢◌, inl, inr, Bool-cases,
}

abbrev KeysDiffer : Entry → Entry → Type 0
KeysDiffer e f = e.0 ≢ f.0

-- Two entries with different keys go into the list in either order.
insert_entry_comm :
    (e f : Entry) (l : List Entry)
    → KeysDiffer e f
    → insert_entry e (insert_entry f l) ≡ insert_entry f (insert_entry e l)
unfolding insert_entry
insert_entry_comm e f [] ne = elim (Bool-cases (text_le e.0 f.0)) [
  | inl a ↦ elim (Bool-cases (text_le f.0 e.0)) [
    | inl b ↦ elim (ne (text_le_antisym e.0 f.0 a b)) [ ]
    | inr b ↦ rw (a, b) refl
  ]
  | inr a ↦ rw (a, text_le_total e.0 f.0 a) refl
]
insert_entry_comm e f (g ∷ l) ne = elim (Bool-cases (text_le e.0 g.0)) [
  | inl a ↦ elim (Bool-cases (text_le f.0 g.0)) [
    | inl b ↦ elim (Bool-cases (text_le e.0 f.0)) [
      | inl c ↦ elim (Bool-cases (text_le f.0 e.0)) [
        | inl d ↦ elim (ne (text_le_antisym e.0 f.0 c d)) [ ]
        | inr d ↦ rw (a, b, c, d) refl
      ]
      | inr c ↦ rw (a, b, c, text_le_total e.0 f.0 c, a) refl
    ]
    | inr b ↦ elim (Bool-cases (text_le f.0 e.0)) [
      | inl d ↦ let h = text_le_trans f.0 e.0 g.0 d a in cc (rw b at h)
      | inr d ↦ rw (a, b, d, a) refl
    ]
  ]
  | inr a ↦ elim (Bool-cases (text_le f.0 g.0)) [
    | inl b ↦ elim (Bool-cases (text_le e.0 f.0)) [
      | inl c ↦ let h = text_le_trans e.0 f.0 g.0 c b in cc (rw a at h)
      | inr c ↦ rw (a, b, c, a) refl
    ]
    | inr b ↦ rw (a, b, insert_entry_comm e f l ne, a) refl
  ]
]

-- Two values that differ at most in the order of the keys of their objects.
mutual
  pub data SameValue {N : Type 0} : Value N → Value N → Type 0 where
    same : {v : Value N} → SameValue v v
    same_array : {a b : Items N} → SameItems a b → SameValue (array a) (array b)
    same_object : {a b : Fields N} → SameFields a b → SameValue (object a) (object b)

  pub data SameItems {N : Type 0} : Items N → Items N → Type 0 where
    same_nil : SameItems nil nil
    same_cons :
        {v w : Value N} {a b : Items N}
        → SameValue v w
        → SameItems a b
        → SameItems (cons v a) (cons w b)

  pub data SameFields {N : Type 0} : Fields N → Fields N → Type 0 where
    same_end : SameFields end end
    same_field :
        {v w : Value N} {a b : Fields N} (k : String)
        → SameValue v w
        → SameFields a b
        → SameFields (field k v a) (field k w b)
    swap_fields :
        {v w : Value N} {a : Fields N} (k j : String)
        → k ≢ j
        → SameFields (field k v (field j w a)) (field j w (field k v a))
    same_trans : {a b c : Fields N} → SameFields a b → SameFields b c → SameFields a c

module _ (serde : Serde) where
  mutual
    unfolding write_value write_items write_fields sort_entries

    write_value-SameValue :
        {v w : Value serde.Number} (depth : ℕ)
        → SameValue v w
        → write_value serde depth v ≡ write_value serde depth w
    write_value-SameValue depth same = refl
    write_value-SameValue depth (same_array h) =
        ap (λ l. guarded serde depth (finish "[" "]" (join_items true l)))
          (write_items-SameItems (depth + 1) h)
    write_value-SameValue depth (same_object h) =
        ap (λ l. guarded serde depth (finish "{" "}" (join_entries serde true l)))
          (sorted-SameFields (depth + 1) h)

    write_items-SameItems :
        {a b : Items serde.Number} (depth : ℕ)
        → SameItems a b
        → write_items serde depth a ≡ write_items serde depth b
    write_items-SameItems depth same_nil = refl
    write_items-SameItems depth (same_cons h k) =
        rw (write_value-SameValue depth h, write_items-SameItems depth k) refl

    sorted-SameFields :
        {a b : Fields serde.Number} (depth : ℕ)
        → SameFields a b
        → sort_entries (write_fields serde depth a) ≡ sort_entries (write_fields serde depth b)
    sorted-SameFields depth same_end = refl
    sorted-SameFields depth (same_field k h g) =
        rw (write_value-SameValue depth h, sorted-SameFields depth g) refl
    sorted-SameFields depth (swap_fields k j ne) = insert_entry_comm _ _ _ ne
    sorted-SameFields depth (same_trans h g) = sorted-SameFields depth h ∙ sorted-SameFields depth g

  -- Two values that differ only in the order of the keys of their objects, at any depth, have the
  -- same canonical text, or fail with the same error.
  pub canonical_json_stable :
      (v w : Value serde.Number) → SameValue v w → canonical_json serde v ≡ canonical_json serde w
  unfolding canonical_json
  canonical_json_stable v w h = write_value-SameValue 0 h

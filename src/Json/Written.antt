-- ===== src/Json/Written.antt =====
-- Values that the writer of crates/hom-shared/src/canonical_json.rs gives a text, when every text is
-- quoted: what is nested deeper than 32 levels has none.
use Prim.Native.String.{◌++◌ as append}
use hom_local.Prelude.{
  ℕ, ◌+◌, String, Bool, true, false, List, [], ◌∷◌, ◌≡◌, refl, ok, inl, inr, Bool-cases, ltb, All,
  if◌then◌else◌,
}
use hom_local.Json.{
  Serde, Value, null, string, object, Entry, insert_entry, sort_entries, entry_text, join_entries,
  write_value, write_fields,
}
use hom_local.Json.Order.{text_le}

-- The entry's value has a text.
abbrev pub HasText : Entry → Type 0
HasText e = (t : String) × (e.1 ≡ ok t)

All-insert_entry :
    (e : Entry) (l : List Entry) → HasText e → All HasText l → All HasText (insert_entry e l)
unfolding insert_entry
All-insert_entry e [] first others = (first, tt)
All-insert_entry e (f ∷ l) first others = elim (Bool-cases (text_le e.0 f.0)) [
  | inl before ↦ rw before (first, others)
  | inr behind ↦ rw behind (others.0, All-insert_entry e l first others.1)
]

All-sort_entries : (l : List Entry) → All HasText l → All HasText (sort_entries l)
unfolding sort_entries
All-sort_entries [] h = tt
All-sort_entries (e ∷ l) h = All-insert_entry e (sort_entries l) h.0 (All-sort_entries l h.1)

module _ (serde : Serde) where
  -- serde_json writes every text.
  abbrev pub QuotesAll : Type 0
  QuotesAll = (s : String) → (t : String) × (serde.quote s ≡ ok t)

  abbrev pub IsWritten : ℕ → Value serde.Number → Type 0
  IsWritten depth v = (t : String) × (write_value serde depth v ≡ ok t)

  joined :
      (first : Bool) (l : List Entry)
      → QuotesAll
      → All HasText l
      → (t : String) × (join_entries serde first l ≡ ok t)
  unfolding join_entries entry_text
  joined first [] quotes h = ("", refl)
  joined first (e ∷ l) quotes h =
      let (key, quoted) = quotes e.0 in
      let (text, written) = h.0 in
      let (rest, others) = joined false l quotes h.1 in
      (
        append (if first then "" else ",") (append (append key (append ":" text)) rest),
        rw (quoted, written, others) refl,
      )

  -- The members of an object have texts; another value has a text itself.
  abbrev pub HasMembers : ℕ → Value serde.Number → Type 0
  HasMembers depth (object fields) = All HasText (write_fields serde (depth + 1) fields)
  HasMembers depth v = IsWritten depth v

  pub object-IsWritten :
      (depth : ℕ) (v : Value serde.Number)
      → QuotesAll
      → ltb 32 depth ≡ false
      → HasMembers depth v
      → IsWritten depth v
  unfolding write_value
  object-IsWritten depth (object fields) quotes shallow h =
      let (text, e) =
        joined true (sort_entries (write_fields serde (depth + 1) fields)) quotes
          (All-sort_entries (write_fields serde (depth + 1) fields) h) in
      (append "{" (append text "}"), rw (shallow, e) refl)
  object-IsWritten depth _ quotes shallow h = h

  pub string-IsWritten :
      (depth : ℕ) (s : String) → QuotesAll → ltb 32 depth ≡ false → IsWritten depth (string s)
  unfolding write_value
  string-IsWritten depth s quotes shallow = let (text, e) = quotes s in (text, rw (shallow, e) refl)

  pub null-IsWritten : (depth : ℕ) → ltb 32 depth ≡ false → IsWritten depth null
  unfolding write_value
  null-IsWritten depth shallow = ("null", rw shallow refl)

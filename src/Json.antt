-- ===== src/Json.antt =====
-- Canonical JSON text (crates/hom-shared/src/canonical_json.rs): object keys in order, no spaces,
-- at most 32 levels below the top. Numbers, the quoting of texts and the parser are serde_json's,
-- and are parameters.
pub mod Order
pub mod Laws
pub mod Access
pub mod Written
use Prim.Native.String.{◌++◌ as append}
use Order.{text_le}
use hom_local.Prelude.{
  ℕ, ◌+◌, String, Bool, true, false, not, List, [], ◌∷◌, Option, none, some, ltb, if◌then◌else◌,
  Result, ok, err, ◌>>=◌, ◌>>◌,
}

-- What the program uses of serde_json.
pub record Serde : Type 1 where
  pub Number : Type 0
  pub Float : Type 0
  pub is_f64 : Number → Bool
  pub as_f64 : Number → Option Float
  pub is_finite : Float → Bool
  pub number_text : Number → String
  pub quote : String → Result String String

-- `serde_json::Value`; an object's keys are distinct, and their order is not part of the value.
mutual
  pub data Value (N : Type 0) : Type 0 where
    null : Value N
    bool : Bool → Value N
    number : N → Value N
    string : String → Value N
    array : Items N → Value N
    object : Fields N → Value N

  pub data Items (N : Type 0) : Type 0 where
    nil : Items N
    cons : Value N → Items N → Items N

  pub data Fields (N : Type 0) : Type 0 where
    end : Fields N
    field : String → Value N → Fields N → Fields N

abbrev pub Text : Type 0
Text = Result String String

-- A key with the text of its value, or the error that writing the value gives.
abbrev pub Entry : Type 0
Entry = String × Text

-- `keys.sort()`, with the values beside their keys
unfoldable pub insert_entry : Entry → List Entry → List Entry
insert_entry e [] = e ∷ []
insert_entry e (f ∷ l) =
    let rest = insert_entry e l in if text_le e.0 f.0 then e ∷ (f ∷ l) else f ∷ rest

unfoldable pub sort_entries : List Entry → List Entry
unfolding insert_entry
sort_entries [] = []
sort_entries (e ∷ l) = insert_entry e (sort_entries l)

-- A comma in front of every item but the first.
abbrev separator : Bool → String
separator first = if first then "" else ","

-- The first error in the order of the items is the error of the whole.
unfoldable pub join_items : Bool → List Text → Text
join_items first [] = ok ""
join_items first (t ∷ ts) = do
  text ← t
  rest ← join_items false ts
  ok (append (separator first) (append text rest))

abbrev enclosed : String → String → String → String
enclosed before after text = append before (append text after)

abbrev finish : String → String → Text → Text
finish before after t = do text ← t; ok (enclosed before after text)

module _ (serde : Serde) where
  unfoldable pub number_to_text : serde.Number → Text
  number_to_text n =
      if serde.is_f64 n
      then elim (serde.as_f64 n) [
        | none ↦ err "non_finite_number"
        | some f ↦ if serde.is_finite f then ok (serde.number_text n) else err "non_finite_number"
      ]
      else ok (serde.number_text n)

  -- `"key":value`, the key quoted first
  unfoldable pub entry_text : Entry → Text
  entry_text e = do key ← serde.quote e.0; value ← e.1; ok (append key (append ":" value))

  unfoldable pub join_entries : Bool → List Entry → Text
  unfolding entry_text
  join_entries first [] = ok ""
  join_entries first (e ∷ es) = do
    text ← entry_text e
    rest ← join_entries false es
    ok (append (separator first) (append text rest))

  abbrev guarded : ℕ → Text → Text
  guarded depth t = if ltb 32 depth then err "canonical_json_depth_exceeded" else t

  unfoldable mutual
    unfolding number_to_text join_items join_entries sort_entries

    pub write_value : ℕ → Value serde.Number → Text
    write_value depth null = guarded depth (ok "null")
    write_value depth (bool b) = guarded depth (ok (if b then "true" else "false"))
    write_value depth (number n) = guarded depth (number_to_text n)
    write_value depth (string s) = guarded depth (serde.quote s)
    write_value depth (array items) =
        guarded depth (finish "[" "]" (join_items true (write_items (depth + 1) items)))
    write_value depth (object fields) =
        guarded depth
          (finish "{" "}" (join_entries true (sort_entries (write_fields (depth + 1) fields))))

    pub write_items : ℕ → Items serde.Number → List Text
    write_items depth nil = []
    write_items depth (cons v items) = write_value depth v ∷ write_items depth items

    pub write_fields : ℕ → Fields serde.Number → List Entry
    write_fields depth end = []
    write_fields depth (field k v fields) = (k, write_value depth v) ∷ write_fields depth fields

  unfoldable pub canonical_json : Value serde.Number → Text
  unfolding write_value
  canonical_json v = write_value 0 v

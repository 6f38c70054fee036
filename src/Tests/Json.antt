-- ===== src/Tests/Json.antt =====
-- Canonical texts (crates/hom-shared/src/canonical_json.rs) over a quoting that only adds the
-- quotation marks and natural numbers written as `n`.
use Prim.Native.String.{◌++◌ as append}
use hom_local.Prelude.{ℕ, str_eq, eq_iff, String, ◌≡◌, ◌≢◌, refl, false, true, none, ok}
use hom_local.Json.{
  Serde, Value, null, number, object, array, nil, cons, end, field, canonical_json, write_value,
  write_items, write_fields, sort_entries, insert_entry, join_items, join_entries, entry_text,
  number_to_text,
}
use hom_local.Json.Order.{text_le, codes_le}
use hom_local.Json.Laws.{same_object, swap_fields, canonical_json_stable}

pub apart : (s t : String) → str_eq s t ≡ false → s ≢ t
apart s t h e = let same = (eq_iff s t).1 e in cc

abbrev pub serde : Serde
serde = record {
  Number = ℕ;
  Float = ℕ;
  is_f64 = λ n. false;
  as_f64 = λ n. none;
  is_finite = λ f. true;
  number_text = λ n. "n";
  quote = λ s. ok (append "'" (append s "'"));
}

abbrev forwards : Value ℕ
forwards = object (field "a" (number 1) (field "b" (array (cons null nil)) end))

abbrev backwards : Value ℕ
backwards = object (field "b" (array (cons null nil)) (field "a" (number 1) end))

keys_are_sorted : canonical_json serde backwards ≡ ok "{'a':n,'b':[null]}"
unfolding canonical_json write_value write_items write_fields sort_entries insert_entry join_items
    join_entries entry_text number_to_text text_le codes_le
keys_are_sorted = refl

canonical_json_stable_example : canonical_json serde forwards ≡ canonical_json serde backwards
canonical_json_stable_example =
    canonical_json_stable serde forwards backwards
      (same_object (swap_fields "a" "b" (apart "a" "b" refl)))

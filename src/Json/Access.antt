-- ===== src/Json/Access.antt =====
-- How the services read JSON values: serde_json's `get`, `as_str`, `as_bool` and `as_array`.
use hom_local.Prelude.{String, Bool, List, [], ◌∷◌, Option, none, some, str_eq, if◌then◌else◌}
use hom_local.Json.{Value, Items, Fields, bool, string, array, object, nil, cons, end, field}

module _ {N : Type 0} where
  abbrev pub get_field : Fields N → String → Option (Value N)
  get_field end key = none
  get_field (field k v fields) key =
      let later = get_field fields key in if str_eq k key then some v else later

  -- `value.get(key)` is none for a value that is no object.
  abbrev pub get : Value N → String → Option (Value N)
  get (object fields) key = get_field fields key
  get _ key = none

  abbrev pub as_str : Value N → Option String
  as_str (string s) = some s
  as_str _ = none

  abbrev pub as_bool : Value N → Option Bool
  as_bool (bool b) = some b
  as_bool _ = none

  abbrev pub item_list : Items N → List (Value N)
  item_list nil = []
  item_list (cons v items) = v ∷ item_list items

  abbrev pub as_array : Value N → Option (List (Value N))
  as_array (array items) = some (item_list items)
  as_array _ = none

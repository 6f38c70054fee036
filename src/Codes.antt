-- ===== src/Codes.antt =====
-- Texts as lists of code points, with the operations of Rust's `str` and `char` that the scans of
-- crates/hom-brain/src/services use.
use hom_local.Prelude.{
  ℕ, ◌+◌, Bool, true, false, ◌&&◌, ◌||◌, List, [], ◌∷◌, ◌++◌, Option, none, some, leb, ◌==◌,
  if◌then◌else◌, zero, suc,
}

-- `is_ascii_digit`, `is_ascii_uppercase`, `is_ascii_alphabetic`, `is_ascii_alphanumeric`
abbrev pub is_digit : ℕ → Bool
is_digit c = leb b'0' c && leb c b'9'

abbrev pub is_uppercase : ℕ → Bool
is_uppercase c = leb b'A' c && leb c b'Z'

abbrev pub is_letter : ℕ → Bool
is_letter c = (leb b'a' c && leb c b'z') || is_uppercase c

abbrev pub is_alphanumeric : ℕ → Bool
is_alphanumeric c = is_digit c || is_letter c

-- `char::is_whitespace`: the property White_Space of Unicode
unfoldable pub is_whitespace : ℕ → Bool
is_whitespace c =
    (leb 9 c && leb c 13)
    || (c == 32)
    || (c == 133)
    || (c == 160)
    || (c == 5760)
    || (leb 8192 c && leb c 8202)
    || (c == 8232)
    || (c == 8233)
    || (c == 8239)
    || (c == 8287)
    || (c == 12288)

-- `matches!(c, a | b | …)` on code points
abbrev pub is_one_of : ℕ → List ℕ → Bool
is_one_of c [] = false
is_one_of c (d ∷ ds) = (c == d) || is_one_of c ds

abbrev pub all_codes : (ℕ → Bool) → List ℕ → Bool
all_codes test [] = true
all_codes test (c ∷ s) = test c && all_codes test s

abbrev pub keep_codes : (ℕ → Bool) → List ℕ → List ℕ
keep_codes test [] = []
keep_codes test (c ∷ s) = let rest = keep_codes test s in if test c then c ∷ rest else rest

abbrev pub map_codes : (ℕ → ℕ) → List ℕ → List ℕ
map_codes f [] = []
map_codes f (c ∷ s) = f c ∷ map_codes f s

-- `to_ascii_lowercase`
abbrev pub ascii_lower : List ℕ → List ℕ
ascii_lower s = map_codes (λ c. if is_uppercase c then c + 32 else c) s

-- `trim_start_matches`, `trim_start` and `trim`
abbrev pub trim_start_matches : (ℕ → Bool) → List ℕ → List ℕ
trim_start_matches test [] = []
trim_start_matches test (c ∷ s) =
    let rest = trim_start_matches test s in if test c then rest else c ∷ s

-- The same from the other end: a code point is dropped when nothing is left behind it.
abbrev drop_at_end : Bool → ℕ → List ℕ → List ℕ
drop_at_end true c [] = []
drop_at_end _ c rest = c ∷ rest

abbrev trim_end_matches : (ℕ → Bool) → List ℕ → List ℕ
trim_end_matches test [] = []
trim_end_matches test (c ∷ s) = let rest = trim_end_matches test s in drop_at_end (test c) c rest

unfoldable pub trim_start : List ℕ → List ℕ
unfolding is_whitespace
trim_start s = trim_start_matches is_whitespace s

unfoldable pub trim : List ℕ → List ℕ
unfolding is_whitespace
trim s = trim_end_matches is_whitespace (trim_start_matches is_whitespace s)

-- Equal texts
abbrev pub same_codes : List ℕ → List ℕ → Bool
same_codes [] [] = true
same_codes (a ∷ s) (b ∷ t) = (a == b) && same_codes s t
same_codes _ _ = false

-- `starts_with`, `contains`, `ends_with`
abbrev pub starts_with : List ℕ → List ℕ → Bool
starts_with s [] = true
starts_with [] (c ∷ needle) = false
starts_with (d ∷ s) (c ∷ needle) = (c == d) && starts_with s needle

abbrev pub occurs : List ℕ → List ℕ → Bool
occurs [] needle = starts_with [] needle
occurs (c ∷ s) needle = starts_with (c ∷ s) needle || occurs s needle

abbrev pub ends_with : List ℕ → List ℕ → Bool
ends_with [] end = same_codes [] end
ends_with (c ∷ s) end = same_codes (c ∷ s) end || ends_with s end

-- `strip_prefix`
abbrev pub stripped : List ℕ → List ℕ → Option (List ℕ)
stripped s [] = some s
stripped [] (c ∷ prefix) = none
stripped (d ∷ s) (c ∷ prefix) = if c == d then stripped s prefix else none

-- `find`, and the text behind what is found
abbrev or_later : Option (List ℕ) → Option (List ℕ) → Option (List ℕ)
or_later (some s) later = some s
or_later none later = later

abbrev pub after_first : List ℕ → List ℕ → Option (List ℕ)
after_first [] needle = stripped [] needle
after_first (c ∷ s) needle = or_later (stripped (c ∷ s) needle) (after_first s needle)

-- `split` at the code points that pass a test
abbrev pub begin_piece : ℕ → List (List ℕ) → List (List ℕ)
begin_piece c [] = (c ∷ []) ∷ []
begin_piece c (piece ∷ pieces) = (c ∷ piece) ∷ pieces

unfoldable pub split_at : (ℕ → Bool) → List ℕ → List (List ℕ)
split_at stop [] = [] ∷ []
split_at stop (c ∷ s) =
    let pieces = split_at stop s in if stop c then [] ∷ pieces else begin_piece c pieces

-- `split(…).next()`
abbrev pub first_piece : (ℕ → Bool) → List ℕ → List ℕ
first_piece stop [] = []
first_piece stop (c ∷ s) = let rest = first_piece stop s in if stop c then [] else c ∷ rest

-- `any`
abbrev pub any_piece {ℓ} : {A : Type ℓ} → (A → Bool) → List A → Bool
any_piece test [] = false
any_piece test (p ∷ ps) = test p || any_piece test ps

-- `rev`
abbrev pub reversed {ℓ} : {A : Type ℓ} → List A → List A
reversed [] = []
reversed (x ∷ xs) = reversed xs ++ (x ∷ [])

-- Slices
abbrev pub take : ℕ → List ℕ → List ℕ
take zero s = []
take (suc n) [] = []
take (suc n) (c ∷ s) = c ∷ take n s

abbrev pub drop : ℕ → List ℕ → List ℕ
drop zero s = s
drop (suc n) [] = []
drop (suc n) (c ∷ s) = drop n s

-- ===== src/SecurityGate.antt =====
-- The scan for secrets (crates/hom-brain/src/services/security_gate.rs): which patterns a text
-- shows. Texts are lists of code points, since every pattern is over ASCII and the program's
-- lengths in bytes are taken of ASCII pieces only. Unicode's lower case is a parameter.
pub mod Card
pub mod Luhn
pub mod Filters
use hom_local.Prelude.{
  ℕ, zero, suc, ◌+◌, ◌-◌, ◌*◌, ◌%◌, String, Bool, true, false, not, ◌&&◌, ◌||◌, List, [], ◌∷◌, ◌++◌,
  Option, none, some, str_eq, codes, ltb, leb, ◌==◌, length, get_or, if◌then◌else◌,
}
use hom_local.Codes.{
  is_digit, is_uppercase, is_alphanumeric, is_whitespace, is_one_of, all_codes, keep_codes,
  map_codes, ascii_lower, trim_start_matches, trim_start, trim, same_codes, starts_with, occurs,
  ends_with, stripped, after_first, split_at, first_piece, any_piece, reversed, take, drop,
}

pub record SecretMatch : Type 0 where
  pub pattern : String

abbrev assignment_secret_keys : List String
assignment_secret_keys =
    "api_key" ∷ "apikey" ∷ "api key" ∷ "secret_key" ∷ "secret key" ∷ "token" ∷ "password"
    ∷ "private_key" ∷ "private key" ∷ "client_secret" ∷ "client secret" ∷ []

abbrev mentions : List ℕ → String → Bool
mentions text needle = occurs text (codes needle)

-- Tokens of an assignment

abbrev is_token_code : ℕ → Bool
is_token_code c = is_alphanumeric c || is_one_of c (codes "-_.")

unfoldable pub is_secret_assignment_token : List ℕ → Bool
is_secret_assignment_token token = leb 16 (length token) && all_codes is_token_code token

unfoldable pub secret_assignment_token : List ℕ → Option (List ℕ)
unfolding is_secret_assignment_token
secret_assignment_token value =
    let token =
      first_piece (λ c. not (is_token_code c))
        (trim_start_matches (λ c. is_one_of c (codes "\"'` ")) value) in
    if is_secret_assignment_token token then some token else none

abbrev is_some : Option (List ℕ) → Bool
is_some none = false
is_some (some token) = true

-- What is assigned to a key, from the text behind the key
unfoldable pub assigned_value : List ℕ → Option (List ℕ)
unfolding trim_start
assigned_value behind =
    let trimmed = trim_start behind in
    elim (stripped trimmed (codes "=>")) [
      | some rest ↦ some rest
      | none ↦ elim (stripped trimmed (codes "=")) [
        | some rest ↦ some rest
        | none ↦ elim (stripped trimmed (codes ":")) [
          | some rest ↦ some rest
          | none ↦ stripped trimmed (codes "is ")
        ]
      ]
    ]

-- A key is looked for once: at its first place in the text.
unfoldable pub assigns_secret : List ℕ → String → Bool
unfolding assigned_value secret_assignment_token
assigns_secret lower key = elim (after_first lower (codes key)) [
  | none ↦ false
  | some behind ↦ elim (assigned_value behind) [
    | none ↦ false
    | some value ↦ is_some (secret_assignment_token value)
  ]
]

unfoldable pub contains_assignment_secret : List ℕ → Bool
unfolding assigns_secret
contains_assignment_secret lower = any_piece (assigns_secret lower) assignment_secret_keys

-- The fixed forms of keys and tokens

unfoldable pub is_aws_token : List ℕ → Bool
is_aws_token token =
    (length token == 20)
    && (starts_with token (codes "AKIA") || starts_with token (codes "ASIA"))
    && all_codes (λ c. is_uppercase c || is_digit c) token

unfoldable pub contains_aws_access_key : List ℕ → Bool
unfolding is_aws_token split_at
contains_aws_access_key value =
    any_piece is_aws_token (split_at (λ c. not (is_alphanumeric c)) value)

unfoldable pub is_prefixed_token : List ℕ → String → Bool
is_prefixed_token token prefix =
    starts_with token (codes prefix)
    && leb (length (codes prefix) + 16) (length token)
    && all_codes is_token_code (drop (length (codes prefix)) token)

unfoldable pub contains_prefixed_token : List ℕ → List String → Bool
unfolding is_prefixed_token split_at is_whitespace
contains_prefixed_token value prefixes =
    any_piece (λ token. any_piece (is_prefixed_token token) prefixes)
      (split_at (λ c. is_whitespace c || is_one_of c (codes "\"'`,;")) value)

-- Social security numbers: `windows(11)` and the test of one window

abbrev windows : ℕ → List ℕ → List (List ℕ)
windows size [] = []
windows size (c ∷ s) =
    let rest = windows size s in
    if leb size (length (c ∷ s)) then take size (c ∷ s) ∷ rest else rest

unfoldable pub is_ssn_window : List ℕ → Bool
is_ssn_window w =
    (get_or w 3 0 == b'-')
    && (get_or w 6 0 == b'-')
    && all_codes is_digit (take 3 w)
    && all_codes is_digit (take 2 (drop 4 w))
    && all_codes is_digit (take 4 (drop 7 w))

unfoldable pub contains_ssn : List ℕ → Bool
unfolding is_ssn_window
contains_ssn value = any_piece is_ssn_window (windows 11 value)

-- Payment cards

-- What one digit adds to the sum
unfoldable pub luhn_value : Bool → ℕ → ℕ
luhn_value double digit =
    if double then (if ltb 9 (digit * 2) then digit * 2 - 9 else digit * 2) else digit

unfoldable pub luhn_sum : ℕ → Bool → List ℕ → ℕ
luhn_sum sum double [] = sum
luhn_sum sum double (digit ∷ digits) = luhn_sum (sum + luhn_value double digit) (not double) digits

unfoldable pub luhn_valid : List ℕ → Bool
luhn_valid digits = (luhn_sum 0 false (reversed digits) % 10) == 0

unfoldable pub is_card : List ℕ → Bool
is_card digits = (leb 13 (length digits) && leb (length digits) 19) && luhn_valid digits

abbrev pub is_card_separator : ℕ → Bool
is_card_separator c = is_one_of c (codes " -.")

abbrev is_empty : List ℕ → Bool
is_empty [] = true
is_empty (d ∷ ds) = false

-- One turn of the loop: the digits that are held from here on, or none when a card is found.
unfoldable pub card_step : List ℕ → ℕ → Option (List ℕ)
unfolding is_card
card_step digits c =
    if is_digit c
    then some (digits ++ ((c - b'0') ∷ []))
    else if is_card_separator c && not (is_empty digits)
    then some digits
    else if is_card digits
    then none
    else some []

unfoldable pub scan_card : List ℕ → List ℕ → Bool
unfolding card_step
scan_card digits [] = false
scan_card digits (c ∷ s) = elim (card_step digits c) [ none ↦ true | some next ↦ scan_card next s ]

unfoldable pub contains_luhn_card : List ℕ → Bool
contains_luhn_card value = scan_card [] (value ++ (0 ∷ []))

-- What a text shows

abbrev pub found_if : Bool → String → List SecretMatch
found_if found pattern = if found then record { pattern = pattern } ∷ [] else []

abbrev api_token_prefixes : List String
api_token_prefixes = "sk-" ∷ "ghp_" ∷ "github_pat_" ∷ "xoxb-" ∷ "xoxp-" ∷ []

-- `retain`
abbrev pub keep_matches : (SecretMatch → Bool) → List SecretMatch → List SecretMatch
keep_matches test [] = []
keep_matches test (m ∷ ms) = let rest = keep_matches test ms in if test m then m ∷ rest else rest

unfoldable pub is_bibliographic_memory_type : List ℕ → Bool
unfolding trim
is_bibliographic_memory_type memory_type =
    let kind = ascii_lower (trim memory_type) in
    any_piece (λ name. same_codes kind (codes name))
      ("bibliographic_reference" ∷ "academic_reference" ∷ "paper_extract" ∷ "book_extract" ∷ [])

unfoldable pub has_citation_cue : List ℕ → Bool
has_citation_cue lower = any_piece (mentions lower) (
    "academic_paper_full_ingestion" ∷ "bibliographic" ∷ "doi:" ∷ "isbn" ∷ "arxiv:" ∷ "proceedings"
    ∷ "conference" ∷ "journal" ∷ "references" ∷ "url http" ∷ "dl.acm.org" ∷ "springer" ∷ "pages "
    ∷ [])

unfoldable pub has_payment_cue : List ℕ → Bool
has_payment_cue lower = any_piece (mentions lower) (
    "credit card" ∷ "card number" ∷ "payment card" ∷ "visa" ∷ "mastercard" ∷ "amex" ∷ "cvv" ∷ "cvc"
    ∷ "expiration date" ∷ [])

unfoldable pub is_bibliographic_false_positive : SecretMatch → List ℕ → Bool
unfolding has_citation_cue has_payment_cue
is_bibliographic_false_positive item value =
    if not (str_eq item.pattern "credit_card")
    then false
    else has_citation_cue (ascii_lower value) && not (has_payment_cue (ascii_lower value))

module _ (to_lowercase : List ℕ → List ℕ) where
  unfoldable pub has_private_key_block : List ℕ → Bool
  has_private_key_block lower =
      mentions lower "-----begin "
      && (mentions lower " private key-----" || mentions lower " secret key-----")

  unfoldable pub has_bearer_token : List ℕ → Bool
  has_bearer_token lower = mentions lower "authorization: bearer " || mentions lower "bearer eyj"

  unfoldable pub secret_matches : List ℕ → List SecretMatch
  unfolding contains_assignment_secret contains_aws_access_key contains_prefixed_token contains_ssn
      contains_luhn_card
  secret_matches value =
      found_if (has_private_key_block (to_lowercase value)) "private_key_block"
      ++ found_if (has_bearer_token (to_lowercase value)) "bearer_token"
      ++ found_if (contains_assignment_secret (to_lowercase value)) "credential_assignment"
      ++ found_if (contains_aws_access_key value) "aws_access_key"
      ++ found_if (contains_prefixed_token value api_token_prefixes) "api_token"
      ++ found_if (contains_ssn value) "ssn"
      ++ found_if (contains_luhn_card value) "credit_card"

  unfoldable pub memory_secret_matches : List ℕ → List ℕ → List SecretMatch
  memory_secret_matches value memory_type =
      if not (is_bibliographic_memory_type memory_type)
      then secret_matches value
      else keep_matches (λ item. not (is_bibliographic_false_positive item value))
          (secret_matches value)

  unfoldable pub generated_artifact_secret_matches : List ℕ → List SecretMatch
  generated_artifact_secret_matches value =
      keep_matches (λ item. not (str_eq item.pattern "credit_card" || str_eq item.pattern "ssn"))
        (secret_matches value)

  -- A key of an assignment, in one of four spellings
  abbrev underscored : List ℕ → List ℕ
  underscored s = map_codes (λ c. if is_one_of c (codes " -") then b'_' else c) s

  abbrev compacted : List ℕ → List ℕ
  compacted s = keep_codes is_alphanumeric s

  unfoldable pub is_key_named : List ℕ → String → Bool
  is_key_named lower candidate =
      same_codes (underscored lower) (underscored (codes candidate))
      || ends_with (underscored lower) (b'_' ∷ underscored (codes candidate))
      || same_codes (compacted lower) (compacted (codes candidate))
      || ends_with (compacted lower) (compacted (codes candidate))

  unfoldable pub is_assignment_secret_key : List ℕ → Bool
  unfolding trim
  is_assignment_secret_key key =
      any_piece (is_key_named (to_lowercase (trim key))) assignment_secret_keys

  unfoldable pub key_value_contains_secret_pattern : List ℕ → List ℕ → Bool
  key_value_contains_secret_pattern key value =
      is_assignment_secret_key key && is_some (secret_assignment_token value)

-- ===== src/I64/Decimal.antt =====
-- The decimal text of an i64, as `format!("{}")` writes it and `str::parse::<i64>` reads it.
use native.Mathlib.Nat.{pow-suc}
use native.Mathlib.Numerals.{add-one}
use hom_local.Prelude.{
  ℕ, zero, suc, ◌+◌, ◌-◌, ◌*◌, ◌/◌, ◌%◌, ◌^◌, ◌≤◌, ◌<◌, ◌≡◌, refl, ◌≢◌, true, ◌&&◌, List, [], ◌∷◌,
  Option, none, some, arith, ltb, leb, ◌==◌, All, Bool-cases, ltb→lt, inl, inr, if◌then◌else◌,
}
use hom_local.Prelude.Int.{ℤ, pos, negsuc}
use hom_local.I64.{two63, InI64}

-- The digits of `n` in front of `out`; 20 rounds are enough for every magnitude of an i64.
emit : ℕ → ℕ → List ℕ → List ℕ
emit zero n out = out
emit (suc f) n out =
    let d = (n % 10 + b'0') ∷ out in let more = emit f (n / 10) d in if ltb n 10 then d else more

unfoldable pub show_i64 : ℤ → List ℕ
unfolding emit
show_i64 (pos n) = emit 20 n []
show_i64 (negsuc n) = b'-' ∷ emit 20 (n + 1) []

read : ℕ → List ℕ → Option ℕ
read n [] = some n
read n (c ∷ s) =
    let rest = read (n * 10 + (c - b'0')) s in if leb b'0' c && leb c b'9' then rest else none

-- A sign by itself, and an empty text, are no number.
read_digits : List ℕ → Option ℕ
unfolding read
read_digits [] = none
read_digits (c ∷ s) = read 0 (c ∷ s)

positive : Option ℕ → Option ℤ
positive none = none
positive (some n) = if ltb n two63 then some (pos n) else none

negative : Option ℕ → Option ℤ
negative none = none
negative (some zero) = some (pos 0)
negative (some (suc n)) = if ltb n two63 then some (negsuc n) else none

unfoldable pub parse_i64 : List ℕ → Option ℤ
unfolding read_digits positive negative
parse_i64 [] = none
parse_i64 (c ∷ s) =
    if c == b'-'
    then negative (read_digits s)
    else if c == b'+'
    then positive (read_digits s)
    else positive (read_digits (c ∷ s))

parses : parse_i64 (b'-' ∷ b'1' ∷ b'2' ∷ []) ≡ some (negsuc 11)
unfolding parse_i64
parses = refl

abbrev pub IsDigit : ℕ → Type 0
IsDigit c = (b'0' ≤ c) × (c ≤ b'9')

emit-IsDigit : (f n : ℕ) (out : List ℕ) → All IsDigit out → All IsDigit (emit f n out)
unfolding emit
emit-IsDigit zero n out h = h
emit-IsDigit (suc f) n out h =
    let d : IsDigit (n % 10 + b'0') = omega arith in
    elim (Bool-cases (ltb n 10)) [
      | inl e ↦ rw e (d, h)
      | inr e ↦ rw e (emit-IsDigit f (n / 10) ((n % 10 + b'0') ∷ out) (d, h))
    ]

emit-cons-ne-nil : (f n c : ℕ) (out : List ℕ) → emit f n (c ∷ out) ≢ []
unfolding emit
emit-cons-ne-nil zero n c out h = cc
emit-cons-ne-nil (suc f) n c out h = elim (Bool-cases (ltb n 10)) [
  | inl e ↦ cc (rw e at h)
  | inr e ↦ emit-cons-ne-nil f (n / 10) (n % 10 + b'0') (c ∷ out) (rw e at h)
]

emit-ne-nil : (f n : ℕ) (out : List ℕ) → emit (suc f) n out ≢ []
unfolding emit
emit-ne-nil f n out h = elim (Bool-cases (ltb n 10)) [
  | inl e ↦ cc (rw e at h)
  | inr e ↦ emit-cons-ne-nil f (n / 10) (n % 10 + b'0') out (rw e at h)
]

-- Reading a digit behind the number before it.
read-digit : (n d : ℕ) (out : List ℕ) → d < 10 → read n ((d + b'0') ∷ out) ≡ read (n * 10 + d) out
unfolding read
read-digit n d out h =
    let same : n * 10 + (d + b'0' - b'0') ≡ n * 10 + d = omega arith in
    let low : leb b'0' (d + b'0') ≡ true = ground arith in
    let high : leb (d + b'0') b'9' ≡ true = ground arith in rw (low, high, same) refl

read-emit : (f n : ℕ) (out : List ℕ) → n < 10 ^ f → read 0 (emit f n out) ≡ read n out
unfolding emit
read-emit zero n out h = let z : n ≡ 0 = omega arith in rw z refl
read-emit (suc f) n out h =
    let shorter : n / 10 < 10 ^ f = let p = pow-suc 10 f in omega arith in
    let digit : n % 10 < 10 = omega arith in
    let whole : n / 10 * 10 + n % 10 ≡ n = omega arith in
    elim (Bool-cases (ltb n 10)) [
      | inl e ↦
          let small : 0 * 10 + n % 10 ≡ n = omega (arith, ltb→lt n 10 e) in
          rw e (rw (read-digit 0 (n % 10) out digit) (rw small refl))
      | inr e ↦ rw e (
          rw (read-emit f (n / 10) ((n % 10 + b'0') ∷ out) shorter)
            (rw (read-digit (n / 10) (n % 10) out digit) (rw whole refl)))
    ]

read_digits-eq-read : (s : List ℕ) → s ≢ [] → read_digits s ≡ read 0 s
unfolding read_digits
read_digits-eq-read [] h = absurd (h refl)
read_digits-eq-read (c ∷ s) h = refl

parse_digits :
    (s : List ℕ) (n : ℕ)
    → All IsDigit s
    → s ≢ []
    → read 0 s ≡ some n
    → n < two63
    → parse_i64 s ≡ some (pos n)
unfolding parse_i64
parse_digits [] n d h e lt = absurd (h refl)
parse_digits (c ∷ s) n d h e lt = ground arith

parse_minus :
    (s : List ℕ) (n : ℕ)
    → s ≢ []
    → read 0 s ≡ some (n + 1)
    → n < two63
    → parse_i64 (b'-' ∷ s) ≡ some (negsuc n)
unfolding parse_i64
parse_minus [] n h e lt = absurd (h refl)
parse_minus (c ∷ s) n h e lt =
    let e' : read 0 (c ∷ s) ≡ some (suc n) = rw add-one at e in ground arith

no_colon : (s : List ℕ) → All IsDigit s → All (λ c. c ≢ b':') s
no_colon [] h = tt
no_colon (c ∷ s) h = (omega arith, no_colon s h.1)

-- Every i64 is read back from its decimal text.
pub parse_i64-show_i64 : (z : ℤ) → InI64 z → parse_i64 (show_i64 z) ≡ some z
unfolding show_i64 read
parse_i64-show_i64 (pos n) h =
    parse_digits (emit 20 n []) n (emit-IsDigit 20 n [] tt) (emit-ne-nil 19 n [])
      (read-emit 20 n [] (omega arith)) h
parse_i64-show_i64 (negsuc n) h =
    parse_minus (emit 20 (n + 1) []) n (emit-ne-nil 19 (n + 1) [])
      (read-emit 20 (n + 1) [] (omega arith)) h

-- No decimal text has a colon in it.
pub All-show_i64 : (z : ℤ) → All (λ c. c ≢ b':') (show_i64 z)
unfolding show_i64
All-show_i64 (pos n) = no_colon _ (emit-IsDigit 20 n [] tt)
All-show_i64 (negsuc n) = (omega arith, no_colon _ (emit-IsDigit 20 (n + 1) [] tt))

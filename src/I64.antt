-- ===== src/I64.antt =====
-- The 64-bit integers of the program: wrap-around arithmetic, as the release build compiles it
-- (Cargo.toml sets no overflow checks), and their decimal texts, as Rust's `Display` and
-- `str::parse` write and read them.
pub mod Decimal
use hom_local.Prelude.{
  ℕ, ◌+◌, ◌-◌, ◌%◌, ◌^◌, ◌≤◌, ◌<◌, ◌≡◌, refl, Bool, arith, ltb, leb, if◌then◌else◌,
}
use hom_local.Prelude.Int.{ℤ, pos, negsuc, ◌-ℤ◌, ◌≤ℤ◌, ltb_ℤ, pos_part, neg_part}

abbrev pub two63 : ℕ
two63 = 9223372036854775808

abbrev pub two64 : ℕ
two64 = 18446744073709551616

-- The range of an i64.
abbrev pub InI64 : ℤ → Type 0
InI64 (pos n) = n < two63
InI64 (negsuc n) = n < two63

-- Two's complement: the i64 that is congruent to an integer modulo 2^64.
unfoldable pub wrap64 : ℤ → ℤ
wrap64 (pos n) = let m = n % two64 in if ltb m two63 then pos m else negsuc (two64 - 1 - m)
wrap64 (negsuc n) = let m = n % two64 in if ltb m two63 then negsuc m else pos (two64 - 1 - m)

unfoldable pub sub64 : ℤ → ℤ → ℤ
unfolding wrap64
sub64 a b = wrap64 (a -ℤ b)

-- `i64::abs`, which at the least i64 gives that number again
unfoldable pub abs64 : ℤ → ℤ
unfolding wrap64
abs64 (pos n) = pos n
abs64 (negsuc n) = wrap64 (pos (n + 1))

abbrev pub leb_ℤ : ℤ → ℤ → Bool
leb_ℤ a b = leb (pos_part a + neg_part b) (pos_part b + neg_part a)

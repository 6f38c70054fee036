-- ===== src/SecurityGate/Luhn.antt =====
-- The check digit of crates/hom-brain/src/services/security_gate.rs.
use hom_local.Prelude.{
  ℕ, ◌+◌, ◌%◌, ◌<◌, Bool, true, false, not, List, [], ◌∷◌, ◌++◌, ◌≡◌, ◌≢◌, refl, sym, arith, inl,
  inr, Bool-cases, ==→eq, append_assoc,
}
use hom_local.Codes.{reversed}
use hom_local.SecurityGate.{luhn_value, luhn_sum, luhn_valid}

luhn_value_injective :
    (double : Bool) (k a b : ℕ)
    → a < 10
    → b < 10
    → (k + luhn_value double a) % 10 ≡ 0
    → (k + luhn_value double b) % 10 ≡ 0
    → a ≡ b
unfolding luhn_value
luhn_value_injective double k a b ha hb ea eb = ground arith

add_swap : (a b c : ℕ) → a + b + c ≡ a + c + b
add_swap a b c = omega arith

luhn_sum_linear :
    (sum extra : ℕ) (double : Bool) (digits : List ℕ)
    → luhn_sum (sum + extra) double digits ≡ luhn_sum sum double digits + extra
unfolding luhn_sum
luhn_sum_linear sum extra double [] = refl
luhn_sum_linear sum extra double (d ∷ digits) =
    rw (add_swap sum extra (luhn_value double d))
      (luhn_sum_linear (sum + luhn_value double d) extra (not double) digits)

-- The sum over digits around one place, as that digit's value added to what the others give.
luhn_sum_place :
    (sum : ℕ) (double : Bool) (front back : List ℕ)
    → (k : ℕ) × ((place : Bool) × ((a : ℕ)
          → luhn_sum sum double (front ++ (a ∷ back)) ≡ k + luhn_value place a))
unfolding luhn_sum
luhn_sum_place sum double [] back = (
  luhn_sum sum (not double) back,
  (double, λ a. luhn_sum_linear sum (luhn_value double a) (not double) back),
)
luhn_sum_place sum double (d ∷ front) back =
    luhn_sum_place (sum + luhn_value double d) (not double) front back

reversed-append :
    (front back : List ℕ) (a : ℕ)
    → reversed (front ++ (a ∷ back)) ≡ reversed back ++ (a ∷ reversed front)
reversed-append [] back a = refl
reversed-append (x ∷ front) back a =
    rw (reversed-append front back a) (append_assoc (reversed back) (a ∷ reversed front) (x ∷ []))

-- When digits pass the check, they no longer pass it after any one of them is replaced by another
-- digit.
pub luhn_detects_change :
    (front back : List ℕ) (a b : ℕ)
    → a < 10
    → b < 10
    → a ≢ b
    → luhn_valid (front ++ (a ∷ back)) ≡ true
    → luhn_valid (front ++ (b ∷ back)) ≡ false
unfolding luhn_valid
luhn_detects_change front back a b below_a below_b differ valid =
    let sums = luhn_sum_place 0 false (reversed back) (reversed front) in
    elim (Bool-cases (luhn_valid (front ++ (b ∷ back)))) [
      | inr invalid ↦ invalid
      | inl also ↦ absurd (
          differ (
            luhn_value_injective sums.1.0 sums.0 a b below_a below_b
              (rw (sym (sums.1.1 a), sym (reversed-append front back a)) (==→eq _ _ valid))
              (rw (sym (sums.1.1 b), sym (reversed-append front back b)) (==→eq _ _ also))))
    ]

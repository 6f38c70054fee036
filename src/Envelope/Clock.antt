-- ===== src/Envelope/Clock.antt =====
-- The time tests of the verifier in crates/hom-shared/src/envelope.rs, on i64 arithmetic that
-- wraps around: what they say of the true distance between the clock and a timestamp.
use hom_local.Prelude.{
  ℕ, ◌+◌, ◌-◌, ◌≤◌, ◌<◌, ◌≡◌, inl, inr, Bool-cases, ltb→lt, Bool, true, false, arith, ltb, leb,
  ◌==◌, if◌then◌else◌,
}
use hom_local.Prelude.Int.{ℤ, pos, negsuc, ◌-ℤ◌, sub_ℕ}
use hom_local.I64.{two63, two64, InI64, wrap64, sub64, abs64, leb_ℤ}
use hom_local.Envelope.{is_skewed}

-- Seconds of the clock, and the verifier's margins, are far below this.
abbrev pub two62 : ℕ
two62 = 4611686018427387904

sub64_pos : (t n : ℕ) → t < two63 → n < two63 → sub64 (pos t) (pos n) ≡ sub_ℕ t n
unfolding sub64 wrap64 ◌-ℤ◌
sub64_pos t n h k = ground arith

sub64_neg_small : (t n : ℕ) → t + n + 1 < two63 → sub64 (pos t) (negsuc n) ≡ pos (t + n + 1)
unfolding sub64 wrap64 ◌-ℤ◌
sub64_neg_small t n h = ground arith

sub64_neg_wrap :
    (t n : ℕ)
    → t < two62
    → n < two63
    → two63 ≤ t + n + 1
    → sub64 (pos t) (negsuc n) ≡ negsuc (two64 - 1 - (t + n + 1))
unfolding sub64 wrap64 ◌-ℤ◌
sub64_neg_wrap t n h k w = ground arith

abs64-sub_ℕ : (t n : ℕ) → t < two63 → n < two63 → abs64 (sub_ℕ t n) ≡ pos (t - n + (n - t))
unfolding abs64 wrap64
abs64-sub_ℕ t n h k = ground arith

-- For a timestamp that is not negative the test is the distance in seconds.
pub is_skewed_pos :
    (t n s : ℕ)
    → t < two63
    → n < two63
    → is_skewed (pos t) (pos n) (pos s) ≡ ltb s (t - n + (n - t))
unfolding is_skewed
is_skewed_pos t n s h k = rw (sub64_pos t n h k) (rw (abs64-sub_ℕ t n h k) (ground arith))

-- For a negative timestamp -(n + 1) too, except at the distance 2^63, where the subtraction and
-- `abs` wrap around and the test passes.
pub is_skewed_neg :
    (t n s : ℕ)
    → t < two62
    → n < two63
    → s < two62
    → is_skewed (pos t) (negsuc n) (pos s)
      ≡ (if t + n + 1 == two63 then false else ltb s (t + n + 1))
unfolding is_skewed abs64 wrap64
is_skewed_neg t n s h k m = elim (Bool-cases (ltb (t + n + 1) two63)) [
  | inl e ↦ rw (sub64_neg_small t n (ltb→lt _ _ e)) (ground arith)
  | inr e ↦ rw (sub64_neg_wrap t n h k (ground arith)) (ground arith)
]

abbrev pub is_retained : ℤ → ℤ → ℤ → Bool
is_retained now ttl ts = leb_ℤ (sub64 now ts) ttl

pub is_retained_pos :
    (t n l : ℕ) → t < two63 → n < two63 → is_retained (pos t) (pos l) (pos n) ≡ leb (t - n) l
is_retained_pos t n l h k = rw (sub64_pos t n h k) (ground arith)

pub is_retained_neg :
    (t n l : ℕ)
    → t < two62
    → n < two63
    → is_retained (pos t) (pos l) (negsuc n)
      ≡ (if ltb (t + n + 1) two63 then leb (t + n + 1) l else true)
is_retained_neg t n l h k = elim (Bool-cases (ltb (t + n + 1) two63)) [
  | inl e ↦ rw (sub64_neg_small t n (ltb→lt _ _ e), e) (ground arith)
  | inr e ↦ rw (sub64_neg_wrap t n h k (ground arith), e) (ground arith)
]

-- A nonce that the verifier forgets is stale: once a timestamp has passed the clock test at `t₀`
-- and is dropped at `t ≥ t₀`, no clock `u ≥ t` lets it pass the test again.
pub dropped_is_skewed :
    (ts : ℤ) (t₀ t u s l : ℕ)
    → InI64 ts
    → t₀ ≤ t
    → t ≤ u
    → u < two62
    → s ≤ l
    → l < two62
    → is_skewed (pos t₀) ts (pos s) ≡ false
    → is_retained (pos t) (pos l) ts ≡ false
    → is_skewed (pos u) ts (pos s) ≡ true
dropped_is_skewed (pos n) t₀ t u s l i a b c d e p q =
    rw (is_skewed_pos u n s (omega arith) i)
      (let q' = rw (is_retained_pos t n l (omega arith) i) at q in ground arith)
dropped_is_skewed (negsuc n) t₀ t u s l i a b c d e p q =
    rw (is_skewed_neg u n s c i (omega arith)) (
      let q' = rw (is_retained_neg t n l (omega arith) i) at q in
      let p' = rw (is_skewed_neg t₀ n s (omega arith) i (omega arith)) at p in ground arith)

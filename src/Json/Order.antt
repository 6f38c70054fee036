-- ===== src/Json/Order.antt =====
-- The order of texts by code points, which is the byte order of their UTF-8, and so the order of
-- Rust's `str`.
use Prim.Native.Char.{code}
use text.Mathlib.TextEquality.{Char-path}
use hom_local.Prelude.{
  ℕ, ◌≡◌, refl, String, Bool, true, false, ◌&&◌, ◌||◌, List, [], ◌∷◌, ltb, ◌==◌, codes, arith,
}

unfoldable pub codes_le : List ℕ → List ℕ → Bool
codes_le [] t = true
codes_le (a ∷ s) [] = false
codes_le (a ∷ s) (b ∷ t) = ltb a b || ((a == b) && codes_le s t)

unfoldable pub text_le : String → String → Bool
unfolding codes_le
text_le s t = codes_le (codes s) (codes t)

codes_le_total : (s t : List ℕ) → codes_le s t ≡ false → codes_le t s ≡ true
unfolding codes_le
codes_le_total [] t h = cc
codes_le_total (a ∷ s) [] h = refl
codes_le_total (a ∷ s) (b ∷ t) h = ground (arith, codes_le_total s t)

codes_le_trans : (s t u : List ℕ) → codes_le s t ≡ true → codes_le t u ≡ true → codes_le s u ≡ true
unfolding codes_le
codes_le_trans [] t u h k = refl
codes_le_trans (a ∷ s) [] u h k = cc
codes_le_trans (a ∷ s) (b ∷ t) [] h k = cc
codes_le_trans (a ∷ s) (b ∷ t) (c ∷ u) h k = ground (arith, codes_le_trans s t u)

codes_le_antisym : (s t : List ℕ) → codes_le s t ≡ true → codes_le t s ≡ true → s ≡ t
unfolding codes_le
codes_le_antisym [] [] h k = refl
codes_le_antisym [] (b ∷ t) h k = cc
codes_le_antisym (a ∷ s) [] h k = cc
codes_le_antisym (a ∷ s) (b ∷ t) h k = ground (arith, codes_le_antisym s t)

codes_inj : (s t : String) → codes s ≡ codes t → s ≡ t
codes_inj String.[] String.[] h = refl
codes_inj String.[] (String.◌∷◌ d t) h = cc
codes_inj (String.◌∷◌ c s) String.[] h = cc
codes_inj (String.◌∷◌ c s) (String.◌∷◌ d t) h =
    let same : code c ≡ code d = cc in
    let rest : codes s ≡ codes t = cc in rw (Char-path c d same, codes_inj s t rest) refl

pub text_le_total : (s t : String) → text_le s t ≡ false → text_le t s ≡ true
unfolding text_le
text_le_total s t h = codes_le_total (codes s) (codes t) h

pub text_le_trans : (s t u : String) → text_le s t ≡ true → text_le t u ≡ true → text_le s u ≡ true
unfolding text_le
text_le_trans s t u h k = codes_le_trans (codes s) (codes t) (codes u) h k

pub text_le_antisym : (s t : String) → text_le s t ≡ true → text_le t s ≡ true → s ≡ t
unfolding text_le
text_le_antisym s t h k = codes_inj s t (codes_le_antisym (codes s) (codes t) h k)

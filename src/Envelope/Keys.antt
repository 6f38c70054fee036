-- ===== src/Envelope/Keys.antt =====
-- Nonce keys and their pruning (crates/hom-shared/src/envelope.rs, `prune_nonces`).
use native.Mathlib.Omega.{arith}
use mathlib.Core.List.{append_assoc}
use hom_local.Prelude.{
  ℕ, ◌≡◌, ◌≢◌, refl, sym, ap, ◌∙◌, String, true, false, List, [], ◌∷◌, ◌++◌, ◌==◌, ==→eq, All,
  Bool-cases, inl, inr, if◌then◌else◌, codes,
}
use hom_local.Prelude.Int.{ℤ}
use hom_local.I64.{InI64}
use hom_local.I64.Decimal.{show_i64, parse_i64-show_i64, All-show_i64}
use hom_local.Envelope.{
  NonceKey, nonce_key, key_eq, contains_key, after_last_colon, retains, retained,
}
use hom_local.Envelope.Clock.{is_retained}

no_colon-last : (best t : List ℕ) → All (λ c. c ≢ b':') t → after_last_colon best t ≡ best
unfolding after_last_colon
no_colon-last best [] h = refl
no_colon-last best (c ∷ t) h = ground (arith, no_colon-last best t h.1)

last-append :
    (best a t : List ℕ) → All (λ c. c ≢ b':') t → after_last_colon best (a ++ (b':' ∷ t)) ≡ t
unfolding after_last_colon
last-append best [] t h = no_colon-last t t h
last-append best (c ∷ a) t h = last-append (if c == b':' then a ++ (b':' ∷ t) else best) a t h

last-nonce_key :
    (best : List ℕ) (id nonce : String) (ts : ℤ)
    → after_last_colon best (nonce_key id nonce ts) ≡ show_i64 ts
unfolding nonce_key
last-nonce_key best id nonce ts =
    ap (after_last_colon best)
      (sym (append_assoc (codes id) (b':' ∷ codes nonce) (b':' ∷ show_i64 ts)))
    ∙ last-append best (codes id ++ (b':' ∷ codes nonce)) (show_i64 ts) (All-show_i64 ts)

-- The timestamp is read back from a key whatever colons the client id and the nonce hold, so that
-- a key is retained exactly while its request's timestamp is within the time to live.
pub retains-nonce_key :
    (now ttl ts : ℤ) (id nonce : String)
    → InI64 ts
    → retains now ttl (nonce_key id nonce ts) ≡ is_retained now ttl ts
unfolding retains
retains-nonce_key now ttl ts id nonce h =
    rw (last-nonce_key (nonce_key id nonce ts) id nonce ts, parse_i64-show_i64 ts h) refl

key_eq→eq : (j k : NonceKey) → key_eq j k ≡ true → j ≡ k
key_eq→eq [] [] h = refl
key_eq→eq (a ∷ j) (b ∷ k) h = cc (==→eq a b (ground arith), key_eq→eq j k (ground arith))
key_eq→eq _ _ h = cc

pub key_eq_refl : (k : NonceKey) → key_eq k k ≡ true
key_eq_refl [] = refl
key_eq_refl (a ∷ k) = ground (arith, key_eq_refl k)

-- Pruning keeps every key that its test retains.
pub contains_key-retained :
    (now ttl : ℤ) (k : NonceKey) (keys : List NonceKey)
    → retains now ttl k ≡ true
    → contains_key k keys ≡ true
    → contains_key k (retained now ttl keys) ≡ true
unfolding retained
contains_key-retained now ttl k [] r h = h
contains_key-retained now ttl k (j ∷ keys) r h = elim (Bool-cases (key_eq j k)) [
  | inl e ↦ let same : retains now ttl j ≡ true = rw (key_eq→eq j k e) r in rw same (rw e refl)
  | inr e ↦ elim (Bool-cases (retains now ttl j)) [
    | inl f ↦ rw f (rw e (contains_key-retained now ttl k keys r (rw e at h)))
    | inr f ↦ rw f (contains_key-retained now ttl k keys r (rw e at h))
  ]
]

-- Pruning forgets every key that its test does not retain.
pub contains_key-dropped :
    (now ttl : ℤ) (k : NonceKey) (keys : List NonceKey)
    → retains now ttl k ≡ false
    → contains_key k (retained now ttl keys) ≡ false
unfolding retained
contains_key-dropped now ttl k [] r = refl
contains_key-dropped now ttl k (j ∷ keys) r = elim (Bool-cases (retains now ttl j)) [
  | inr f ↦ rw f (contains_key-dropped now ttl k keys r)
  | inl f ↦ elim (Bool-cases (key_eq j k)) [
    | inl e ↦ cc (f, r, ap (retains now ttl) (key_eq→eq j k e))
    | inr e ↦ rw f (rw e (contains_key-dropped now ttl k keys r))
  ]
]

-- ===== src/Envelope/Replay.antt =====
-- The verifier of crates/hom-shared/src/envelope.rs accepts no request twice, although it forgets
-- old nonces.
use hom_local.Prelude.{
  ℕ, ◌≤◌, ◌<◌, ◌≡◌, ◌≢◌, refl, inl, inr, String, true, false, List, [], ◌∷◌, Option, Result, ok,
  arith, Bool-cases, ap, or_right,
}
use hom_local.Prelude.Int.{ℤ, pos}
use hom_local.I64.{InI64}
use hom_local.Envelope.{
  HomEnvelope, VerifiedIdentity, EnvelopeError, PayloadOps, NonceKey, EnvelopeVerifier, nonce_key,
  key_eq, contains_key, prune_nonces, is_skewed, verify_body,
}
use hom_local.Envelope.Clock.{two62, is_retained, dropped_is_skewed}
use hom_local.Envelope.Keys.{retains-nonce_key, key_eq_refl, contains_key-retained}
use hom_local.Envelope.Admission.{
  Effect, untouched, pruned, inserted, remember, key_of, verify_body-Effect, verify_body_complete,
  verify_body_sound,
}

-- The verifier's margins, in seconds: a nonce is remembered at least as long as it could pass the
-- clock test.
pub record HasMargins (v : EnvelopeVerifier) (s l : ℕ) : Type 0 where
  pub skew : v.skew_seconds ≡ pos s
  pub ttl : v.nonce_ttl_seconds ≡ pos l

-- The key is remembered, or was dropped at some time since `t₀`.
data Burned (id nonce : String) (ts : ℤ) (l t₀ t : ℕ) (v : EnvelopeVerifier) : Type 0 where
  remembered :
      contains_key (nonce_key id nonce ts) v.seen_nonces ≡ true → Burned id nonce ts l t₀ t v
  dropped :
      (d : ℕ)
      → t₀ ≤ d
      → d ≤ t
      → is_retained (pos d) (pos l) ts ≡ false
      → Burned id nonce ts l t₀ t v

module _ (id nonce : String) (ts : ℤ) (s l t₀ : ℕ) (in_range : InI64 ts) where
  prune-Burned :
      (t u : ℕ) (v : EnvelopeVerifier)
      → HasMargins v s l
      → t₀ ≤ t
      → t ≤ u
      → Burned id nonce ts l t₀ t v
      → Burned id nonce ts l t₀ u (prune_nonces (pos u) v)
  prune-Burned t u v m a b (dropped d p q r) = dropped d p (omega arith) r
  prune-Burned t u v m a b (remembered h) = elim (Bool-cases (is_retained (pos u) (pos l) ts)) [
    | inr e ↦ dropped u (omega arith) (omega arith) e
    | inl e ↦ remembered (
        unfold prune_nonces in
        contains_key-retained (pos u) v.nonce_ttl_seconds (nonce_key id nonce ts) v.seen_nonces
          (rw m.ttl (rw (retains-nonce_key (pos u) (pos l) ts id nonce in_range) e)) h)
  ]

  remember-Burned :
      (k : NonceKey) (t : ℕ) (v : EnvelopeVerifier)
      → Burned id nonce ts l t₀ t v
      → Burned id nonce ts l t₀ t (remember k v)
  remember-Burned k t v (dropped d p q r) = dropped d p q r
  remember-Burned k t v (remembered h) = remembered (or_right (key_eq k (nonce_key id nonce ts)) h)

  later-Burned :
      (t u : ℕ) (v : EnvelopeVerifier)
      → t ≤ u
      → Burned id nonce ts l t₀ t v
      → Burned id nonce ts l t₀ u v
  later-Burned t u v b (dropped d p q r) = dropped d p (omega arith) r
  later-Burned t u v b (remembered h) = remembered h

  Effect-Burned :
      (t u : ℕ) (k : NonceKey) (v v' : EnvelopeVerifier)
      → HasMargins v s l
      → t₀ ≤ t
      → t ≤ u
      → Burned id nonce ts l t₀ t v
      → Effect (pos u) k v v'
      → Burned id nonce ts l t₀ u v'
  Effect-Burned t u k v v' m a b h (untouched e) = rw e (later-Burned t u v b h)
  Effect-Burned t u k v v' m a b h (pruned e) = rw e (prune-Burned t u v m a b h)
  Effect-Burned t u k v v' m a b h (inserted e) =
      rw e (remember-Burned k u (prune_nonces (pos u) v) (prune-Burned t u v m a b h))

Effect-HasMargins :
    {now : ℤ} {k : NonceKey} (v v' : EnvelopeVerifier) (s l : ℕ)
    → HasMargins v s l
    → Effect now k v v'
    → HasMargins v' s l
unfolding prune_nonces
Effect-HasMargins v v' s l m (untouched e) = rw e m
Effect-HasMargins v v' s l m (pruned e) = rw e (record { skew = m.skew; ttl = m.ttl })
Effect-HasMargins v v' s l m (inserted e) = rw e (record { skew = m.skew; ttl = m.ttl })

module _ (ops : PayloadOps) where
  pub record Call : Type 0 where
    pub now : ℕ
    pub body : ops.Body
    pub hom : HomEnvelope
    pub required : Option String

  abbrev pub serve :
      EnvelopeVerifier → Call → EnvelopeVerifier × Result EnvelopeError VerifiedIdentity
  serve v c = verify_body ops (pos c.now) c.body c.hom c.required v

  unfoldable pub after : List Call → EnvelopeVerifier → EnvelopeVerifier
  after [] v = v
  after (c ∷ cs) v = after cs (serve v c).0

  -- The clock does not go back, from `t` over the calls to `u`.
  abbrev pub InOrder : ℕ → List Call → ℕ → Type 0
  InOrder t [] u = t ≤ u
  InOrder t (c ∷ cs) u = (t ≤ c.now) × InOrder c.now cs u

  le-InOrder : (t : ℕ) (cs : List Call) (u : ℕ) → InOrder t cs u → t ≤ u
  le-InOrder t [] u h = h
  le-InOrder t (c ∷ cs) u h = omega (arith, le-InOrder c.now cs u h.1)

  after-HasMargins :
      (cs : List Call) (v : EnvelopeVerifier) (s l : ℕ)
      → HasMargins v s l
      → HasMargins (after cs v) s l
  unfolding after
  after-HasMargins [] v s l m = m
  after-HasMargins (c ∷ cs) v s l m = after-HasMargins cs (serve v c).0 s l (
      Effect-HasMargins v (serve v c).0 s l m
        (verify_body-Effect ops (pos c.now) c.body c.hom c.required v))

  module _ (id nonce : String) (ts : ℤ) (s l t₀ : ℕ) (in_range : InI64 ts) where
    after-Burned :
        (cs : List Call) (t u : ℕ) (v : EnvelopeVerifier)
        → HasMargins v s l
        → t₀ ≤ t
        → InOrder t cs u
        → Burned id nonce ts l t₀ t v
        → Burned id nonce ts l t₀ u (after cs v)
    unfolding after
    after-Burned [] t u v m a o h = later-Burned id nonce ts s l t₀ in_range t u v o h
    after-Burned (c ∷ cs) t u v m a o h =
        let e = verify_body-Effect ops (pos c.now) c.body c.hom c.required v in
        after-Burned cs c.now u (serve v c).0 (Effect-HasMargins v (serve v c).0 s l m e)
          (omega arith) o.1
          (Effect-Burned id nonce ts s l t₀ in_range t c.now (key_of c.hom) v (serve v c).0 m a o.0
            h e)

    -- A request whose key is burned is not accepted.
    Burned-is_refused :
        (c : Call) (v : EnvelopeVerifier) (t : ℕ) (who : VerifiedIdentity)
        → HasMargins v s l
        → s ≤ l
        → l < two62
        → c.now < two62
        → t ≤ c.now
        → t₀ ≤ t
        → is_skewed (pos t₀) ts (pos s) ≡ false
        → key_of c.hom ≡ nonce_key id nonce ts
        → c.hom.ts ≡ ts
        → Burned id nonce ts l t₀ t v
        → (serve v c).1 ≢ ok who
    Burned-is_refused c v t who m a b x y z on_time k at h accepted =
        let adm = verify_body_sound ops (pos c.now) c.body c.hom c.required v who accepted in
        let fresh : is_skewed (pos c.now) ts (pos s) ≡ false = rw (m.skew, at) at adm.on_time in
        go (prune-Burned id nonce ts s l t₀ in_range t c.now v m z y h) (rw k at adm.new_nonce)
          fresh
      where
        go :
            Burned id nonce ts l t₀ c.now (prune_nonces (pos c.now) v)
            → contains_key (nonce_key id nonce ts) (prune_nonces (pos c.now) v).seen_nonces ≡ false
            → is_skewed (pos c.now) ts (pos s) ≡ false
            → ⊥
        go (remembered r) new fresh = cc (r, new)
        go (dropped d p q r) new fresh =
            cc (dropped_is_skewed ts t₀ d c.now s l in_range p q x a b on_time r, fresh)

  -- Once a request is accepted, no later request with its client id, nonce and timestamp is,
  -- whatever requests come between, while the clock does not go back and the margin of the clock
  -- test is at most the time for which nonces are remembered.
  pub no_replay :
      (v : EnvelopeVerifier) (first again : Call) (between : List Call) (s l : ℕ)
      (who who' : VerifiedIdentity)
      → HasMargins v s l
      → s ≤ l
      → l < two62
      → InI64 first.hom.ts
      → InOrder first.now between again.now
      → again.now < two62
      → again.hom.client_id ≡ first.hom.client_id
      → again.hom.nonce ≡ first.hom.nonce
      → again.hom.ts ≡ first.hom.ts
      → (serve v first).1 ≡ ok who
      → (serve (after between (serve v first).0) again).1 ≢ ok who'
  no_replay v first again between s l who who' m a b i o x same_id same_nonce same_ts accepted =
      let now = pos first.now in
      let adm = verify_body_sound ops now first.body first.hom first.required v who accepted in
      let v' = (serve v first).0 in
      let e = verify_body-Effect ops now first.body first.hom first.required v in
      let m' = Effect-HasMargins v v' s l m e in
      let kept : v' ≡ remember (key_of first.hom) (prune_nonces now v) =
        ap (λ r. r.0)
          (verify_body_complete ops now first.body first.hom first.required v who adm) in
      let burned : Burned first.hom.client_id first.hom.nonce first.hom.ts l first.now first.now
          v' =
        rw kept (remembered (rw key_eq_refl refl)) in
      let order = le-InOrder first.now between again.now o in
      Burned-is_refused first.hom.client_id first.hom.nonce first.hom.ts s l first.now i again
        (after between v') again.now who' (after-HasMargins between v' s l m') a b x (omega arith)
        order (rw m.skew at adm.on_time) (rw (same_id, same_nonce, same_ts) refl) same_ts
        (after-Burned first.hom.client_id first.hom.nonce first.hom.ts s l first.now i between
          first.now again.now v' m' (omega arith) o burned)

-- ===== src/RateLimit/Windows.antt =====
-- What the limiter of crates/hom-ingress/src/rate_limit.rs grants.
use text.Mathlib.TextPositions.{eq_refl}
use hom_local.Prelude.{
  ℕ, ◌+◌, ◌≤◌, ◌<◌, ◌≡◌, refl, ap, ◌∙◌, inl, inr, String, true, false, ◌&&◌, List, [], ◌∷◌, Option,
  some, str_eq, eq_iff, arith, leb, if◌then◌else◌, Result, ok, err, Bool-cases, and_false,
}
use hom_local.RateLimit.{
  LimitClass, read, write, Window, RateLimiter, limit_of, same_class, put, retry_after, check,
}

same_class_self : (k : LimitClass) → same_class k k ≡ true
same_class_self read = refl
same_class_self write = refl

-- A call touches no window but that of its client and class.
pub check_isolated :
    (now : ℕ) (client other : String) (class kind : LimitClass) (rl : RateLimiter)
    → (str_eq client other && same_class class kind) ≡ false
    → (check now client class rl).0.windows other kind ≡ rl.windows other kind
unfolding check
check_isolated now client other class kind rl h = ground arith

put_self :
    (client : String) (class : LimitClass) (w : Window) (m : String → LimitClass → Option Window)
    → put client class w m client class ≡ some w
put_self client class w m = rw (eq_refl client, same_class_self class) refl

limit-pos : (class : LimitClass) → 0 < limit_of class
limit-pos read = omega arith
limit-pos write = omega arith

granted_after_roll :
    (later : ℕ) (client : String) (class : LimitClass) (rl : RateLimiter) (w : Window)
    → rl.windows client class ≡ some w
    → w.start_s + 60 ≤ later
    → (check later client class rl).1 ≡ ok tt
unfolding check
granted_after_roll later client class rl w e h =
    let rolls : leb (w.start_s + 60) later ≡ true = ground arith in
    let room : leb (limit_of class) 0 ≡ false = ground (arith, limit-pos class) in
    rw e (rw rolls (rw room refl))

err_inj : {a b : ℕ} → ◌≡◌ {A = Result ℕ (Unit {0})} (err a) (err b) → b ≡ a
err_inj h = cc

record Refused (now r : ℕ) (client : String) (class : LimitClass) (rl : RateLimiter) (w : Window)
    : Type 0 where
  current : now < w.start_s + 60
  wait : r ≡ retry_after now w.start_s
  kept : (check now client class rl).0.windows client class ≡ some w

refused :
    (now r : ℕ) (client : String) (class : LimitClass) (rl : RateLimiter) (w : Window)
    → rl.windows client class ≡ some w
    → (check now client class rl).1 ≡ err r
    → Refused now r client class rl w
unfolding check
refused now r client class rl w e h = elim (Bool-cases (leb (w.start_s + 60) now)) [
  | inl rolls ↦
      let room : leb (limit_of class) 0 ≡ false = ground (arith, limit-pos class) in
      cc (rw (e, rolls, room) at h)
  | inr stays ↦ elim (Bool-cases (leb (limit_of class) w.count)) [
    | inr room ↦ cc (rw (e, stays, room) at h)
    | inl spent ↦
        let answer = rw (e, stays, spent) at h in
        record {
          current = ground arith;
          wait = err_inj answer;
          kept = rw (e, stays, spent) (put_self client class w rl.windows);
        }
  ]
]

-- A refusal tells the truth: the wait is between 1 and 60 seconds where the clock has not gone
-- back, and after that wait the same call is granted.
pub retry_after_honest :
    (now later r : ℕ) (client : String) (class : LimitClass) (rl : RateLimiter)
    → (w : Window) → rl.windows client class ≡ some w
    → w.start_s ≤ now
    → (check now client class rl).1 ≡ err r
    → now + r ≤ later
    → (1 ≤ r) × (r ≤ 60) × ((check later client class (check now client class rl).0).1 ≡ ok tt)
retry_after_honest now later r client class rl w e s h l =
    let f = refused now r client class rl w e h in
    let current : now < w.start_s + 60 = f.current in
    let wait : r ≡ retry_after now w.start_s = f.wait in
    (
      ground arith,
      ground arith,
      granted_after_roll later client class (check now client class rl).0 w f.kept (ground arith),
    )

pub record Check : Type 0 where
  pub now : ℕ
  pub client : String
  pub class : LimitClass

abbrev pub granted : Result ℕ (Unit {0}) → ℕ
granted (ok u) = 1
granted (err r) = 0

-- How many of the calls for one client and class are granted.
unfoldable pub grants : String → LimitClass → List Check → RateLimiter → ℕ
grants client class [] rl = 0
grants client class (c ∷ cs) rl =
    let (rl', r) = check c.now c.client c.class rl in
    (if str_eq c.client client && same_class c.class class then granted r else 0)
    + grants client class cs rl'

-- Every call comes before the end of the window that starts at `start`.
abbrev pub Before : ℕ → List Check → Type 0
Before end [] = Unit
Before end (c ∷ cs) = (c.now < end) × Before end cs

same_key :
    (c client : String) (k class : LimitClass)
    → (str_eq c client && same_class k class) ≡ true
    → (c ≡ client) × (k ≡ class)
same_key c client read read h = ((eq_iff c client).0 (ground arith), refl)
same_key c client write write h = ((eq_iff c client).0 (ground arith), refl)
same_key c client read write h = cc (and_false (str_eq c client), h)
same_key c client write read h = cc (and_false (str_eq c client), h)

-- Within a window a call is granted while the count is below the limit, and then counted.
counted :
    (now : ℕ) (client : String) (class : LimitClass) (rl : RateLimiter) (w : Window)
    → rl.windows client class ≡ some w
    → w.count ≤ limit_of class
    → now < w.start_s + 60
    → (v : Window) × ((check now client class rl).0.windows client class ≡ some v)
      × (v.start_s ≡ w.start_s)
      × (v.count ≡ w.count + granted (check now client class rl).1)
      × (v.count ≤ limit_of class)
unfolding check
counted now client class rl w e h b =
    let stays : leb (w.start_s + 60) now ≡ false = ground arith in
    elim (Bool-cases (leb (limit_of class) w.count)) [
      | inl spent ↦ (
        w,
        rw (e, stays, spent) (put_self client class w rl.windows),
        refl,
        rw (e, stays, spent) (omega arith),
        h,
      )
      | inr room ↦ (
        record { start_s = w.start_s; count = w.count + 1 },
        rw (e, stays, room) (put_self client class _ rl.windows),
        refl,
        rw (e, stays, room) refl,
        ground arith,
      )
    ]

-- In one window of 60 seconds a client is granted at most what its window has left, 100 reads or
-- 30 writes in all, however the calls of other clients and classes come between.
pub grants-le-limit :
    (client : String) (class : LimitClass) (cs : List Check) (rl : RateLimiter) (w : Window)
    → rl.windows client class ≡ some w
    → w.count ≤ limit_of class
    → Before (w.start_s + 60) cs
    → w.count + grants client class cs rl ≤ limit_of class
unfolding grants
grants-le-limit client class [] rl w e h b = omega arith
grants-le-limit client class (c ∷ cs) rl w e h (b, bs) =
    let rl' = (check c.now c.client c.class rl).0 in
    elim (Bool-cases (str_eq c.client client && same_class c.class class)) [
      | inr other ↦ rw other (
          omega (
            arith,
            grants-le-limit client class cs rl' w
                (check_isolated c.now c.client client c.class class rl other ∙ e) h bs,
          ))
      | inl same ↦
          let (id, kind) = same_key c.client client c.class class same in
          let here : (check c.now client class rl ≡ check c.now c.client c.class rl) =
            rw (id, kind) refl in
          let (v, at, start, count, fits) = counted c.now client class rl w e h b in
          rw same (
            omega (
              arith,
              count,
              ap (λ r. granted r.1) here,
              grants-le-limit client class cs rl' v (rw here at at) fits (rw start bs),
            ))
    ]

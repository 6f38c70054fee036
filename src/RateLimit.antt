-- ===== src/RateLimit.antt =====
-- The fixed-window rate limiter of the HTTP ingress (crates/hom-ingress/src/rate_limit.rs).
pub mod Windows
use hom_local.Prelude.{
  ℕ, ◌+◌, ◌-◌, String, Bool, true, false, ◌&&◌, Option, none, some, str_eq, leb, if◌then◌else◌,
  Result, ok, err,
}

pub data LimitClass : Type 0 where
  read write : LimitClass

pub record Window : Type 0 where
  pub start_s : ℕ
  pub count : ℕ

-- The map from a client and a class to its window.
pub record RateLimiter : Type 0 where
  pub windows : String → LimitClass → Option Window

unfoldable pub new : RateLimiter
new = record { windows = λ client class. none }

abbrev pub limit_of : LimitClass → ℕ
limit_of read = 100
limit_of write = 30

abbrev pub same_class : LimitClass → LimitClass → Bool
same_class read read = true
same_class write write = true
same_class _ _ = false

abbrev pub put :
    String
    → LimitClass
    → Window
    → (String → LimitClass → Option Window)
    → String
    → LimitClass
    → Option Window
put client class w windows c k =
    if str_eq client c && same_class class k then some w else windows c k

-- `entry(key).or_insert(…)`
abbrev pub window_or : ℕ → Option Window → Window
window_or now none = record { start_s = now; count = 0 }
window_or now (some w) = w

-- The clock reads whole seconds since the epoch; `now - start_s >= 60` is written so that a clock
-- that went back gives no reset, as in the source's signed subtraction.
abbrev pub rolled : ℕ → Window → Window
rolled now w = if leb (w.start_s + 60) now then record { start_s = now; count = 0 } else w

-- `(60 - (now - start_s)).max(1)`, of a signed difference
abbrev pub retry_after : ℕ → ℕ → ℕ
retry_after now start = if leb (start + 59) now then 1 else 60 + start - now

unfoldable pub check : ℕ → String → LimitClass → RateLimiter → RateLimiter × Result ℕ (Unit {0})
check now client class rl =
    let w = rolled now (window_or now (rl.windows client class)) in
    if leb (limit_of class) w.count
    then (record { windows = put client class w rl.windows }, err (retry_after now w.start_s))
    else (
      record {
        windows = put client class (record { start_s = w.start_s; count = w.count + 1 }) rl.windows;
      },
      ok tt,
    )

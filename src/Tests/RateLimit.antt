-- ===== src/Tests/RateLimit.antt =====
-- The rate limiter of crates/hom-ingress/src/rate_limit.rs on a client that has used up its writes.
use hom_local.Prelude.{◌+◌, ◌≤◌, ◌≡◌, refl, List, [], ◌∷◌, none, ok, err, arith}
use hom_local.RateLimit.{write, Window, RateLimiter, limit_of, put, check}
use hom_local.RateLimit.Windows.{Check, grants, retry_after_honest, grants-le-limit}

abbrev full_window : Window
full_window = record { start_s = 1000; count = 30 }

abbrev limited : RateLimiter
limited = record { windows = put "ui" write full_window (λ client class. none) }

full_window_refuses : (check 1010 "ui" write limited).1 ≡ err 50
unfolding check
full_window_refuses = refl

retry_after_honest_example :
    (1 ≤ 50) × (50 ≤ 60) × ((check 1060 "ui" write (check 1010 "ui" write limited).0).1 ≡ ok tt)
retry_after_honest_example =
    retry_after_honest 1010 1060 50 "ui" write limited full_window refl (omega arith)
      full_window_refuses (omega arith)

abbrev nearly_full : RateLimiter
nearly_full = record {
  windows = put "ui" write (record { start_s = 1000; count = 28 }) (λ client class. none);
}

abbrev writes : List Check
writes =
    record { now = 1001; client = "ui"; class = write }
    ∷ record { now = 1002; client = "cli"; class = write }
    ∷ record { now = 1003; client = "ui"; class = write }
    ∷ record { now = 1004; client = "ui"; class = write }
    ∷ []

two_are_left : grants "ui" write writes nearly_full ≡ 2
unfolding grants check
two_are_left = refl

grants-le-limit_example : 28 + grants "ui" write writes nearly_full ≤ limit_of write
grants-le-limit_example =
    grants-le-limit "ui" write writes nearly_full (record { start_s = 1000; count = 28 }) refl
      (omega arith) (omega arith, (omega arith, (omega arith, (omega arith, tt))))

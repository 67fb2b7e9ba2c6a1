-- ===== src/Tests/Limiter.antt =====
-- The limiter of cmdboss/ratelimit.py at work: two requests in ten ticks.
use cmdboss.Prelude.{
  ℕ, ◌+◌, ◌≤◌, ◌≡◌, refl, String, some, List, [], ◌∷◌, lookup, arith, min, insert,
}
use cmdboss.RateLimit.{RateLimiter, init, check}
use cmdboss.RateLimit.Window.{allowed, allowed-le-limit}

abbrev two_per_ten : RateLimiter
two_per_ten = init 2 10 1000

abbrev busy : RateLimiter
busy = record two_per_ten { buckets = ("ann", (3, 1)) ∷ [] }

abbrev burst : List (ℕ × String)
burst = (4, "ann") ∷ (5, "bob") ∷ (6, "ann") ∷ (7, "ann") ∷ []

burst-allowed : allowed "ann" busy burst ≡ 1
unfolding allowed check insert lookup
burst-allowed = refl

busy_bucket : lookup "ann" busy.buckets ≡ some (3, 1)
unfolding lookup
busy_bucket = refl

allowed-le-limit_example : allowed "ann" busy burst + min 1 2 ≤ 2
allowed-le-limit_example = allowed-le-limit "ann" busy burst 3 1 busy_bucket (omega arith)

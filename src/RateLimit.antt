-- ===== src/RateLimit.antt =====
-- cmdboss/ratelimit.py: the per-principal fixed-window limiter. `now` is the reading of
-- time.monotonic() in ticks of the clock; `now - start >= window` is written without subtraction.
pub mod Window
use cmdboss.Prelude.{
  ℕ, ◌+◌, ◌-◌, String, Bool, true, false, not, Option, none, some, List, [], ◌∷◌, Dict, lookup,
  insert, select, length, ltb, leb, if◌then◌else◌,
}

pub record RateLimiter : Type 0 where
  pub limit : ℕ
  pub window : ℕ
  pub max_keys : ℕ
  pub buckets : Dict (ℕ × ℕ)

-- FixedWindowRateLimiter(limit, window, max_keys)
abbrev pub init : ℕ → ℕ → ℕ → RateLimiter
init limit window max_keys = record {
  limit = limit;
  window = window;
  max_keys = max_keys;
  buckets = [];
}

-- `now - start >= self._window`
abbrev pub elapsed : RateLimiter → ℕ → ℕ × ℕ → Bool
elapsed r now (start, count) = leb (start + r.window) now

-- the bucket of a key before the hit: self._buckets.get(key, (now, 0)), reset after its window
pub bucket : RateLimiter → ℕ → Option (ℕ × ℕ) → ℕ × ℕ
bucket r now none = (now, 0)
bucket r now (some b) = if elapsed r now b then (now, 0) else b

pub evict : RateLimiter → ℕ → RateLimiter
evict r now = record r { buckets = select (λ (k, b). not (elapsed r now b)) r.buckets }

-- `self._buckets[key] = (start, count)`, and the eviction of stale buckets beyond `max_keys`
pub store : RateLimiter → ℕ → String → ℕ × ℕ → RateLimiter
unfolding evict
store r now key b =
    let r' = record r { buckets = insert key b r.buckets } in
    if ltb r.max_keys (length r'.buckets) then evict r' now else r'

-- `count > self._limit`
abbrev pub verdict : RateLimiter → ℕ → ℕ × ℕ → Bool × ℕ
verdict r now (start, count) =
    if ltb r.limit count then (false, start + r.window - now) else (true, 0)

pub hit : ℕ × ℕ → ℕ × ℕ
hit (start, count) = (start, count + 1)

unfoldable pub check : RateLimiter → ℕ → String → (Bool × ℕ) × RateLimiter
unfolding bucket hit store
check r now key =
    let b = hit (bucket r now (lookup key r.buckets)) in (verdict r now b, store r now key b)

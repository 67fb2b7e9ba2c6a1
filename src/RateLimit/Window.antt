-- ===== src/RateLimit/Window.antt =====
-- What the limiter promises: within one window a key is let through at most `limit` times, and one
-- key's hits do not touch another's live bucket.
use cmdboss.Prelude.{
  ℕ, ◌+◌, ◌&&◌, ◌≤◌, ◌<◌, String, ◌≡◌, ◌≢◌, not, some, List, [], ◌∷◌, Dict, lookup, insert,
  lookup-insert, select, if◌then◌else◌, arith, eq_iff, str_eq, Bool-cases, min, inl, inr, subst,
  sym,
}
use cmdboss.RateLimit.{RateLimiter, elapsed, bucket, evict, store, verdict, hit, check}

-- a bucket in its window survives the eviction
lookup-evict :
    (r : RateLimiter) (now : ℕ) (k : String) (start count : ℕ) (d : Dict (ℕ × ℕ))
    → lookup k d ≡ some (start, count)
    → now < start + r.window
    → lookup k (select (λ (j, b). not (elapsed r now b)) d) ≡ some (start, count)
unfolding lookup select
lookup-evict r now k start count [] e h = cc
lookup-evict r now k start count ((j, b) ∷ d) e h =
    ground (arith, lookup-evict r now k start count d)

lookup-store :
    (r : RateLimiter) (now : ℕ) (key k : String) (b : ℕ × ℕ) (start count : ℕ)
    → lookup k (insert key b r.buckets) ≡ some (start, count)
    → now < start + r.window
    → lookup k (store r now key b).buckets ≡ some (start, count)
unfolding store
lookup-store r now key k b start count e h =
    ground (arith, lookup-evict r now k start count (insert key b r.buckets))

-- A hit of another key leaves a bucket that is in its window as it is.
pub check-other :
    (r : RateLimiter) (now : ℕ) (key k : String) (start count : ℕ)
    → key ≢ k
    → lookup k r.buckets ≡ some (start, count)
    → now < start + r.window
    → lookup k (check r now key).1.buckets ≡ some (start, count)
unfolding check
check-other r now key k start count ne e h =
    let b = hit (bucket r now (lookup key r.buckets)) in
    lookup-store r now key k b start count
      (ground (arith, lookup-insert key k b r.buckets, eq_iff key k)) h

-- A hit within the window adds one to the count.
pub check-own :
    (r : RateLimiter) (now : ℕ) (k : String) (start count : ℕ)
    → lookup k r.buckets ≡ some (start, count)
    → now < start + r.window
    → ((check r now k).0 ≡ verdict r now (start, count + 1))
      × (lookup k (check r now k).1.buckets ≡ some (start, count + 1))
unfolding check hit bucket
check-own r now k start count e h = rw e (
  ground arith,
  ground (
    arith,
    lookup-store r now k k (start, count + 1) start (count + 1),
    lookup-insert k k (start, count + 1) r.buckets,
    eq_iff k k,
  ),
)

-- How many of the hits of `k` in a schedule of hits (time, key) are let through.
unfoldable pub allowed : String → RateLimiter → List (ℕ × String) → ℕ
allowed k r [] = 0
allowed k r ((now, key) ∷ hits) =
    let (answer, r') = check r now key in
    let rest = allowed k r' hits in if str_eq key k && answer.0 then rest + 1 else rest

limits-check :
    (r : RateLimiter) (now : ℕ) (key : String)
    → ((check r now key).1.limit ≡ r.limit) × ((check r now key).1.window ≡ r.window)
unfolding check store evict
limits-check r now key = ground arith

abbrev pub AllBefore : ℕ → List (ℕ × String) → Type 0
AllBefore end [] = Unit
AllBefore end ((now, key) ∷ hits) = (now < end) × AllBefore end hits

-- In a schedule of hits of any keys that falls in the window of `k`'s bucket, the hits of `k` that
-- are let through and those counted before, up to the limit, are together at most the limit.
pub allowed-le-limit :
    (k : String) (r : RateLimiter) (hits : List (ℕ × String)) (start count : ℕ)
    → lookup k r.buckets ≡ some (start, count)
    → AllBefore (start + r.window) hits
    → allowed k r hits + min count r.limit ≤ r.limit
unfolding allowed
allowed-le-limit k r [] start count e h = omega arith
allowed-le-limit k r ((now, key) ∷ hits) start count e h =
    let (same_limit, same_window) = limits-check r now key in
    let rest = λ (n : ℕ). allowed-le-limit k (check r now key).1 hits start n in
    elim (Bool-cases (str_eq key k)) [
      | inl own ↦
          let (answer, kept) =
            subst
              (λ j.
                ((check r now j).0 ≡ verdict r now (start, count + 1))
                × (lookup k (check r now j).1.buckets ≡ some (start, count + 1)))
              (sym ((eq_iff key k).0 own)) (check-own r now k start count e h.0) in
          rw (own, answer) (ground (arith, rest (count + 1) kept (rw same_window h.1)))
      | inr other ↦ rw other (
          ground (
            arith,
            rest count (check-other r now key k start count (ground (arith, eq_iff key k)) e h.0)
                (rw same_window h.1),
          ))
    ]

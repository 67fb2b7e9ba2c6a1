-- ===== src/Outbox/Dispatcher/Backoff.antt =====
-- The delays between attempts: they start at the base, double, and stop at the cap.
use cmdboss.Prelude.{ℕ, suc, ◌+◌, ◌-◌, ◌*◌, ◌^◌, ◌≤◌, ◌≡◌, min, arith}
use native.Mathlib.Nat.{pow-suc}
use cmdboss.Outbox.Dispatcher.{Policy, backoff}

-- The first delay is the base, each later one is twice the one before, all up to the cap.
pub backoff_doubles :
    (p : Policy) (n : ℕ)
    → (backoff p 1 ≡ min p.base p.cap)
      × (backoff p (n + 2) ≡ min (2 * backoff p (n + 1)) p.cap)
      × (backoff p (n + 1) ≤ backoff p (n + 2))
      × (backoff p (n + 1) ≤ p.cap)
unfolding backoff
backoff_doubles p n =
    let up : n + 2 - 1 ≡ suc n = omega arith in
    let down : n + 1 - 1 ≡ n = omega arith in
    let twice : p.base * 2 ^ suc n ≡ 2 * (p.base * 2 ^ n) = rw pow-suc (omega arith) in
    rw (up, down) (omega (arith, twice))

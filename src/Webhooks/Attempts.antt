-- ===== src/Webhooks/Attempts.antt =====
-- How often a hook is tried.
use cmdboss.Prelude.{
  ℕ, zero, suc, ◌+◌, ◌<◌, ◌≡◌, refl, true, false, Option, ltb, leb, arith, ◌⊎◌, inl, inr,
  Bool-cases,
}
use cmdboss.Webhooks.{Delivery, is_accepted, attempts, deliver_hook}

-- every attempt before `k` is refused
abbrev pub AllRefused : (ℕ → Option ℕ) → ℕ → Type 0
AllRefused outcome k = (j : ℕ) → j < k → is_accepted (outcome j) ≡ false

-- the requests were made up to the first attempt that was accepted, which is `k`
abbrev pub AcceptedAt : (ℕ → Option ℕ) → ℕ → ℕ → Delivery → Type 0
AcceptedAt outcome attempt k d =
    (is_accepted (outcome k) ≡ true)
    × AllRefused outcome k
    × (attempt + d.sends ≡ k + 1)
    × (d.delivered ≡ true)
    × (d.dropped ≡ false)

-- all of that many requests were made and refused
abbrev pub RefusedAll : (ℕ → Option ℕ) → ℕ → ℕ → Delivery → Type 0
RefusedAll outcome most rounds d =
    AllRefused outcome most × (d.sends ≡ rounds) × (d.delivered ≡ false) × (d.dropped ≡ true)

one_more :
    (outcome : ℕ → Option ℕ) (k : ℕ)
    → AllRefused outcome k
    → is_accepted (outcome k) ≡ false
    → AllRefused outcome (k + 1)
one_more outcome k h e j lt = elim (Bool-cases (ltb j k)) [
  | inl before ↦ h j (ground arith)
  | inr now ↦ let same : j ≡ k = ground arith in rw same e
]

module _ (outcome : ℕ → Option ℕ) (most : ℕ) where
  attempts-cases :
      (rounds attempt : ℕ)
      → attempt + suc rounds ≡ most
      → AllRefused outcome attempt
      → ((k : ℕ) × (k < most)
          × AcceptedAt outcome attempt k (attempts outcome most attempt (suc rounds)))
        ⊎ RefusedAll outcome most (suc rounds) (attempts outcome most attempt (suc rounds))
  unfolding attempts
  attempts-cases zero attempt total before = elim (Bool-cases (is_accepted (outcome attempt))) [
    | inl e ↦ inl (attempt, omega arith, rw e (refl, before, refl, refl, refl))
    | inr e ↦
        let last : leb most (attempt + 1) ≡ true = ground arith in
        let end : attempt + 1 ≡ most = omega arith in
        let all : AllRefused outcome most = rw (← end) (one_more outcome attempt before e) in
        inr (rw (e, last) (all, refl, refl, refl))
  ]
  attempts-cases (suc rounds) attempt total before =
      elim (Bool-cases (is_accepted (outcome attempt))) [
        | inl e ↦ inl (attempt, omega arith, rw e (refl, before, refl, refl, refl))
        | inr e ↦
            let more : leb most (attempt + 1) ≡ false = ground arith in
            elim (attempts-cases rounds (attempt + 1) (omega arith)
              (one_more outcome attempt before e)) [
                | inl (k, lt, found) ↦
                    let (ok, refused, sends, arrived, kept) = found in
                    inl (k, lt, rw (e, more) (ok, refused, omega arith, arrived, kept))
                | inr failed ↦
                    let (refused, sends, undelivered, gone) = failed in
                    inr (rw (e, more) (refused, omega arith, undelivered, gone))
              ]
      ]

-- Where at least one attempt is allowed, a delivery to a hook either has a first accepted attempt
-- among them, makes the requests up to it and none after, and counts the event as delivered and
-- not as dropped; or it makes every allowed request, none of which is accepted, and counts the
-- event as dropped and not as delivered.
pub deliver_hook-cases :
    (outcome : ℕ → Option ℕ) (most : ℕ)
    → 0 < most
    → ((k : ℕ) × (k < most) × AcceptedAt outcome 0 k (deliver_hook outcome most))
      ⊎ RefusedAll outcome most most (deliver_hook outcome most)
unfolding deliver_hook
deliver_hook-cases outcome zero lt = absurd (omega arith)
deliver_hook-cases outcome (suc rounds) lt =
    attempts-cases outcome (suc rounds) rounds 0 (omega arith) (λ j before. absurd (omega arith))

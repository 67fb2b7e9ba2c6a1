-- ===== src/Security/Access.antt =====
-- What a guarded route is open to.
use cmdboss.Prelude.{
  ℕ, ◌≡◌, refl, ap, String, Bool, true, false, not, Option, none, some, List, [], ◌∷◌, Memᴰ,
  mem-select, inl, inr, Bool-cases, ◌⊎◌,
}
use mathlib.Core.List.Memᴰ
use cmdboss.Errors.{Error}
use cmdboss.Errors.Result.{Result, ok, err}
use cmdboss.RateLimit
use cmdboss.RateLimit.{RateLimiter}
use cmdboss.Security.{
  Principal, has_scope, missing_scopes, get_principal, cleared, require, limited, admitted,
}

none_missing :
    (p : Principal) (scopes : List String) (s : String)
    → missing_scopes p scopes ≡ []
    → Memᴰ s scopes
    → has_scope p s ≡ true
unfolding missing_scopes
none_missing p scopes s h m = elim (Bool-cases (has_scope p s)) [
  | inl e ↦ e
  | inr e ↦
      absurd
        (Memᴰ.not-nil (rw h at ((mem-select (λ x. not (has_scope p x)) s scopes).1 (m, rw e refl))))
]

cleared_from :
    (p q : Principal) (l : List String)
    → elim l [ [] ↦ ok q | _ ∷ _ ↦ err Error.forbidden ] ≡ ok p
    → (l ≡ []) × (q ≡ p)
cleared_from p q [] h = (refl, cc)
cleared_from p q (x ∷ xs) h = cc

cleared_ok :
    (scopes : List String) (r : Result Principal) (p : Principal) (s : String)
    → cleared scopes r ≡ ok p
    → Memᴰ s scopes
    → (r ≡ ok p) × (has_scope p s ≡ true)
unfolding cleared
cleared_ok scopes (err e) p s h m = cc
cleared_ok scopes (ok q) p s h m =
    let (empty, same) = cleared_from p q (missing_scopes q scopes) h in
    (ap ok same, rw same at (none_missing q scopes s empty m))

admitted_same : (q p : Principal) (x : (Bool × ℕ) × RateLimiter) → (admitted q x).0 ≡ ok p → q ≡ p
unfolding admitted
admitted_same q p ((true, wait), limiter) h = cc
admitted_same q p ((false, wait), limiter) h = cc

-- who get_principal returns
provided :
    (enabled : Bool) (now : ℕ) (who : Option Principal) (limiter : Option RateLimiter)
    (p : Principal)
    → (get_principal enabled now who limiter).0 ≡ ok p
    → (enabled ≡ false) ⊎ (who ≡ some p)
unfolding get_principal limited admitted
provided false now who limiter p h = inl refl
provided true now none limiter p h = cc
provided true now (some q) none p h = inr cc
provided true now (some q) (some limiter) p h =
    inr (ap some (admitted_same q p (RateLimit.check limiter now q.id) h))

-- A caller that `require` lets through has every scope that it asks for, and is the caller that
-- get_principal returned; where authentication is on, some provider has authenticated it.
pub require_ok :
    (scopes : List String) (enabled : Bool) (now : ℕ) (who : Option Principal)
    (limiter : Option RateLimiter) (p : Principal) (s : String)
    → (require scopes enabled now who limiter).0 ≡ ok p
    → Memᴰ s scopes
    → ((get_principal enabled now who limiter).0 ≡ ok p)
      × (has_scope p s ≡ true)
      × ((enabled ≡ false) ⊎ (who ≡ some p))
unfolding require
require_ok scopes enabled now who limiter p s h m =
    let (got, held) = cleared_ok scopes (get_principal enabled now who limiter).0 p s h m in
    (got, held, provided enabled now who limiter p got)

-- ===== src/Errors/Result/Runs.antt =====
-- How a run of a composed action splits into the runs of its parts.
use cmdboss.Prelude.{◌≡◌, refl, Bool, true, false, ◌⊎◌, inl, inr}
use cmdboss.Errors.{Error}
use cmdboss.Errors.Result.{Result, ok, err, Exec, ◌>>=◌, ◌>>◌, transaction, on_error}

-- the two ways an action ends
pub Run-cases {ℓ κ} :
    {S : Type ℓ} {A : Type κ} (r : Result A × S)
    → ((a : A) × (s : S) × (r ≡ (ok a, s))) ⊎ ((e : Error) × (s : S) × (r ≡ (err e, s)))
Run-cases (ok a, s) = inl (a, s, refl)
Run-cases (err e, s) = inr (e, s, refl)

module _ {ℓ} {S : Type ℓ} {A B : Type 0} where
  pub bind_ok :
      (m : Exec S A) (f : A → Exec S B) (s s' : S) (b : B)
      → (m >>= f) s ≡ (ok b, s')
      → (a : A) × (t : S) × (m s ≡ (ok a, t)) × (f a t ≡ (ok b, s'))
  bind_ok m f s s' b h = elim (Run-cases (m s)) [
    | inl (a, t, e) ↦ (a, t, e, rw e at h)
    | inr (x, t, e) ↦ cc (rw e at h)
  ]

  pub bind-cases :
      (m : Exec S A) (f : A → Exec S B) (s s' : S) (x : Result B)
      → (m >>= f) s ≡ (x, s')
      → ((e : Error) × (m s ≡ (err e, s')) × (x ≡ err e))
        ⊎ ((a : A) × (t : S) × (m s ≡ (ok a, t)) × (f a t ≡ (x, s')))
  bind-cases m f s s' x h = elim (Run-cases (m s)) [
    | inl (a, t, e) ↦ inr (a, t, e, rw e at h)
    | inr (y, t, e) ↦ inl (let k = rw e at h in (y, cc, cc))
  ]

module _ {ℓ} {S : Type ℓ} {B : Type 0} where
  pub then_ok :
      (m : Exec S (Unit {0})) (k : Exec S B) (s s' : S) (b : B)
      → (m >> k) s ≡ (ok b, s')
      → (t : S) × (m s ≡ (ok tt, t)) × (k t ≡ (ok b, s'))
  then_ok m k s s' b h = elim (Run-cases (m s)) [
    | inl (tt, t, e) ↦ (t, e, rw e at h)
    | inr (x, t, e) ↦ cc (rw e at h)
  ]

  -- a transaction that raises leaves the database as it was
  pub transaction_err :
      (enabled : Bool) (body : Exec S B) (s s' : S) (x : Error)
      → enabled ≡ true
      → transaction enabled body s ≡ (err x, s')
      → s' ≡ s
  unfolding transaction
  transaction_err true body s s' x on h = elim (Run-cases (body s)) [
    | inl (a, t, e) ↦ cc (rw e at h)
    | inr (y, t, e) ↦ cc (rw e at h)
  ]
  transaction_err false body s s' x on h = cc

  -- a transaction that returns has run its body
  pub transaction_ok :
      (enabled : Bool) (body : Exec S B) (s s' : S) (b : B)
      → transaction enabled body s ≡ (ok b, s')
      → body s ≡ (ok b, s')
  unfolding transaction
  transaction_ok false body s s' b h = h
  transaction_ok true body s s' b h = elim (Run-cases (body s)) [
    | inl (a, t, e) ↦ rw e (rw e at h)
    | inr (y, t, e) ↦ cc (rw e at h)
  ]

  pub on_error_ok :
      (cleanup : S → S) (body : Exec S B) (s s' : S) (b : B)
      → on_error cleanup body s ≡ (ok b, s')
      → body s ≡ (ok b, s')
  on_error_ok cleanup body s s' b h = elim (Run-cases (body s)) [
    | inl (a, t, e) ↦ rw e (rw e at h)
    | inr (y, t, e) ↦ cc (rw e at h)
  ]

  pub on_error_err :
      (cleanup : S → S) (body : Exec S B) (s s' : S) (x : Error)
      → on_error cleanup body s ≡ (err x, s')
      → (t : S) × (body s ≡ (err x, t)) × (s' ≡ cleanup t)
  on_error_err cleanup body s s' x h = elim (Run-cases (body s)) [
    | inl (a, t, e) ↦ cc (rw e at h)
    | inr (y, t, e) ↦ (t, cc (rw e at h), cc (rw e at h))
  ]

-- an action that returns, and what runs after it or around it
module _ {ℓ} {S : Type ℓ} {A B : Type 0} where
  pub bind_returns :
      (m : Exec S A) (f : A → Exec S B) (s t : S) (a : A) (x : Result B × S)
      → m s ≡ (ok a, t)
      → f a t ≡ x
      → (m >>= f) s ≡ x
  bind_returns m f s t a x h k = rw h k

module _ {ℓ} {S : Type ℓ} {B : Type 0} where
  pub then_returns :
      (m : Exec S (Unit {0})) (k : Exec S B) (s t : S) (x : Result B × S)
      → m s ≡ (ok tt, t)
      → k t ≡ x
      → (m >> k) s ≡ x
  then_returns m k s t x h e = rw h e

  pub transaction_returns :
      (enabled : Bool) (body : Exec S B) (s t : S) (b : B)
      → body s ≡ (ok b, t)
      → transaction enabled body s ≡ (ok b, t)
  unfolding transaction
  transaction_returns false body s t b h = h
  transaction_returns true body s t b h = rw h refl

  pub on_error_returns :
      (cleanup : S → S) (body : Exec S B) (s t : S) (b : B)
      → body s ≡ (ok b, t)
      → on_error cleanup body s ≡ (ok b, t)
  on_error_returns cleanup body s t b h = rw h refl

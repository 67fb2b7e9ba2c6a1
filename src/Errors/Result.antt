-- ===== src/Errors/Result.antt =====
-- Python code that may raise: a value or an exception, and actions on a state `S` that is kept when
-- an exception leaves them. `transaction` is that of cmdboss/db.py.
pub mod Runs
use cmdboss.Prelude.{◌≡◌, refl, Bool, true, false, Option, none, some}
use cmdboss.Errors.{Error}

pub data Result {ℓ} (A : Type ℓ) : Type ℓ where
  ok : A → Result A
  err : Error → Result A

abbrev pub Exec {ℓ κ} : Type ℓ → Type κ → Type (ℓ ⊔ κ)
Exec S A = S → Result A × S

module _ {ℓ κ} {S : Type ℓ} {A : Type κ} where
  abbrev pub pure : A → Exec S A
  pure a s = (ok a, s)

  abbrev pub raise : Error → Exec S A
  raise e s = (err e, s)

  abbrev pub lift : Result A → Exec S A
  lift r s = (r, s)

  -- `if x is None: raise e`
  abbrev pub or_raise : Option A → Error → Exec S A
  or_raise none e s = (err e, s)
  or_raise (some a) e s = (ok a, s)

  -- the outcome of a transaction that began in the first state: commit, or abort
  abbrev pub settle : S → Result A × S → Result A × S
  settle s0 (ok a, s) = (ok a, s)
  settle s0 (err e, s) = (err e, s0)

  -- `async with transaction(client, enabled=…)`: with no transaction the writes that were made stay
  unfoldable pub transaction : Bool → Exec S A → Exec S A
  transaction false body s = body s
  transaction true body s = settle s (body s)

  -- `except Exception: cleanup; raise`, where the cleanup itself raises nothing
  abbrev pub cleaned : (S → S) → Result A × S → Result A × S
  cleaned cleanup (ok a, s) = (ok a, s)
  cleaned cleanup (err e, s) = (err e, cleanup s)

  abbrev pub on_error : (S → S) → Exec S A → Exec S A
  on_error cleanup body s = cleaned cleanup (body s)

module _ {ℓ κ μ} {S : Type ℓ} {A : Type κ} {B : Type μ} where
  abbrev pub continue : (A → Exec S B) → Result A × S → Result B × S
  continue f (ok a, s) = f a s
  continue f (err e, s) = (err e, s)

  infixl 5 ◌>>=◌
  abbrev pub ◌>>=◌ : Exec S A → (A → Exec S B) → Exec S B
  ◌>>=◌ m f s = continue f (m s)

module _ {ℓ μ} {S : Type ℓ} {B : Type μ} where
  infixl 5 ◌>>◌
  abbrev pub ◌>>◌ : Exec S (Unit {0}) → Exec S B → Exec S B
  ◌>>◌ m k s = continue (λ _. k) (m s)

abbrev pub guard {ℓ} : {S : Type ℓ} → Bool → Error → Exec S (Unit {0})
guard true e s = (err e, s)
guard false e s = (ok tt, s)

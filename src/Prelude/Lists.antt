-- ===== src/Prelude/Lists.antt =====
-- Lists measured by native numbers and searched by Boolean tests.
use Prim.Native.Nat.{ℕ, zero, suc, ◌+◌}
use mathlib.Core.Path.{◌≡◌, refl, sym, subst}
use mathlib.Core.Logic.{◌⊎◌, inl, inr, ◌↔◌, ⊎_elim}
use mathlib.Core.Bool.{Bool, true, false, ◌||◌}
use mathlib.Core.Option.{Option, none, some}
use mathlib.Core.List.{List, [], ◌∷◌, ◌++◌, map, Memᴰ}
use mathlib.Core.List.Memᴰ
use native.Mathlib.Omega.{arith}
use cmdboss.Prelude.Tests.{if◌then◌else◌, Bool-cases, some_injective}

module _ {ℓ} {A : Type ℓ} where
  abbrev pub length : List A → ℕ
  length [] = 0
  length (x ∷ xs) = suc (length xs)

  abbrev pub take : ℕ → List A → List A
  take zero xs = []
  take (suc n) [] = []
  take (suc n) (x ∷ xs) = x ∷ take n xs

  abbrev pub drop : ℕ → List A → List A
  drop zero xs = xs
  drop (suc n) [] = []
  drop (suc n) (x ∷ xs) = drop n xs

  -- the elements that pass the test
  unfoldable pub select : (A → Bool) → List A → List A
  select q [] = []
  select q (x ∷ xs) = let rest = select q xs in if q x then x ∷ rest else rest

  -- the first element that passes
  unfoldable pub first : (A → Bool) → List A → Option A
  first q [] = none
  first q (x ∷ xs) = if q x then some x else first q xs

  unfoldable pub any : (A → Bool) → List A → Bool
  any q [] = false
  any q (x ∷ xs) = q x || any q xs

  -- `f` at the first element that passes
  unfoldable pub update_first : (A → Bool) → (A → A) → List A → List A
  update_first q f [] = []
  update_first q f (x ∷ xs) = let rest = update_first q f xs in if q x then f x ∷ xs else x ∷ rest

  -- what `f` makes of the first element that passes is the same as another element, of those before
  -- it or after it
  unfoldable pub clashes_with : List A → (A → A → Bool) → (A → Bool) → (A → A) → List A → Bool
  clashes_with before same q f [] = false
  clashes_with before same q f (x ∷ xs) =
      let rest = clashes_with (x ∷ before) same q f xs in
      if q x then any (same (f x)) before || any (same (f x)) xs else rest

  abbrev pub clashes : (A → A → Bool) → (A → Bool) → (A → A) → List A → Bool
  clashes = clashes_with []

  unfoldable pub delete_first : (A → Bool) → List A → List A
  delete_first q [] = []
  delete_first q (x ∷ xs) = let rest = delete_first q xs in if q x then xs else x ∷ rest

  pub length-append : (xs ys : List A) → length (xs ++ ys) ≡ length xs + length ys
  length-append [] ys = omega arith
  length-append (x ∷ xs) ys = omega (arith, length-append xs ys)

  pub Memᴰ-cons : (a x : A) (xs : List A) → Memᴰ a (x ∷ xs) ↔ ((a ≡ x) ⊎ Memᴰ a xs)
  Memᴰ-cons a x xs = (Memᴰ.cases_cons, ⊎_elim Memᴰ.head Memᴰ.tail)

  pub Memᴰ-append : (a : A) (xs ys : List A) → Memᴰ a (xs ++ ys) ↔ (Memᴰ a xs ⊎ Memᴰ a ys)
  Memᴰ-append a xs ys = (Memᴰ.append_cases xs, ⊎_elim (Memᴰ.append_left ys) (Memᴰ.append_right xs))

  pub Memᴰ-concat : (a x : A) (xs : List A) → Memᴰ a (xs ++ x ∷ []) ↔ (Memᴰ a xs ⊎ (a ≡ x))
  Memᴰ-concat a x xs = (
    λ m. ⊎_elim inl (λ last. inr (Memᴰ.eq_of_singleton last)) (Memᴰ.append_cases xs m),
    ⊎_elim (Memᴰ.append_left _) (λ e. Memᴰ.append_right xs (Memᴰ.head e)),
  )

  pub mem-select :
      (q : A → Bool) (a : A) (xs : List A) → Memᴰ a (select q xs) ↔ (Memᴰ a xs × (q a ≡ true))
  unfolding select
  mem-select q a [] = (λ m. absurd (Memᴰ.not-nil m), λ m. absurd (Memᴰ.not-nil m.0))
  mem-select q a (x ∷ xs) = elim (Bool-cases (q x)) [
    | inl e ↦
        rw e (ground (arith, mem-select q a xs, Memᴰ-cons a x xs, Memᴰ-cons a x (select q xs)))
    | inr e ↦ rw e (ground (arith, mem-select q a xs, Memᴰ-cons a x xs))
  ]

  pub first-eq-some :
      (q : A → Bool) (xs : List A) (a : A) → first q xs ≡ some a → Memᴰ a xs × (q a ≡ true)
  unfolding first
  first-eq-some q [] a h = cc
  first-eq-some q (x ∷ xs) a h = ground (arith, first-eq-some q xs a, Memᴰ-cons a x xs)

  pub first-eq-none :
      (q : A → Bool) (xs : List A) (a : A) → first q xs ≡ none → Memᴰ a xs → q a ≡ false
  unfolding first
  first-eq-none q [] a h m = absurd (Memᴰ.not-nil m)
  first-eq-none q (x ∷ xs) a h m = ground (arith, first-eq-none q xs a, (Memᴰ-cons a x xs).0 m)

  pub any-eq-false :
      (q : A → Bool) (xs : List A) (a : A) → any q xs ≡ false → Memᴰ a xs → q a ≡ false
  unfolding any
  any-eq-false q [] a h m = absurd (Memᴰ.not-nil m)
  any-eq-false q (x ∷ xs) a h m = ground (arith, any-eq-false q xs a, (Memᴰ-cons a x xs).0 m)

  -- the test finds nothing exactly where nothing is selected
  pub any-select : (q : A → Bool) (xs : List A) → (any q xs ≡ false) ↔ (length (select q xs) ≡ 0)
  unfolding any select
  any-select q [] = (λ _. refl, λ _. refl)
  any-select q (x ∷ xs) = ground (arith, any-select q xs)

  -- what is found is found by a narrower test that it passes
  pub first-narrow :
      (p q : A → Bool) (xs : List A) (a : A)
      → ((b : A) → p b ≡ true → q b ≡ true)
      → first q xs ≡ some a
      → p a ≡ true
      → first p xs ≡ some a
  unfolding first
  first-narrow p q [] a sub h hit = cc
  first-narrow p q (x ∷ xs) a sub h hit = elim (Bool-cases (q x)) [
    | inl e ↦ let same : x ≡ a = some_injective (rw e at h) in rw (same, hit) refl
    | inr e ↦
        let miss : p x ≡ false = ground (arith, sub x) in
        rw miss (first-narrow p q xs a sub (rw e at h) hit)
  ]

module _ {ℓ} {A : Type ℓ} where
  pub first-append :
      (q : A → Bool) (xs ys : List A) → first q xs ≡ none → first q (xs ++ ys) ≡ first q ys
  unfolding first
  first-append q [] ys h = refl
  first-append q (x ∷ xs) ys h = ground (arith, first-append q xs ys)

  -- the first match stays where it is when more is appended
  pub first-append_found :
      (q : A → Bool) (xs ys : List A) (a : A) → first q xs ≡ some a → first q (xs ++ ys) ≡ some a
  unfolding first
  first-append_found q [] ys a h = cc
  first-append_found q (x ∷ xs) ys a h = ground (arith, first-append_found q xs ys a)

  pub first-none_of_any :
      (q p : A → Bool) (xs : List A)
      → ((a : A) → q a ≡ true → p a ≡ true)
      → any p xs ≡ false
      → first q xs ≡ none
  unfolding first any
  first-none_of_any q p [] sub h = refl
  first-none_of_any q p (x ∷ xs) sub h = ground (arith, sub x, first-none_of_any q p xs sub)

  -- an update that keeps the test is found where the old element was
  pub first-update_first :
      (q : A → Bool) (f : A → A) (xs : List A) (a : A)
      → first q xs ≡ some a
      → q (f a) ≡ true
      → first q (update_first q f xs) ≡ some (f a)
  unfolding first update_first
  first-update_first q f [] a h k = cc
  first-update_first q f (x ∷ xs) a h k = ground (arith, first-update_first q f xs a)

  -- where nothing passes, an update changes nothing
  pub update_first_absent :
      (q : A → Bool) (f : A → A) (xs : List A) → first q xs ≡ none → update_first q f xs ≡ xs
  unfolding first update_first
  update_first_absent q f [] h = refl
  update_first_absent q f (x ∷ xs) h = ground (arith, update_first_absent q f xs)

  -- a test that looks at none of what `f` changes
  pub first-update_other :
      (p q : A → Bool) (f : A → A) (xs : List A)
      → ((a : A) → q a ≡ true → p a ≡ false)
      → ((a : A) → q a ≡ true → p (f a) ≡ false)
      → first p (update_first q f xs) ≡ first p xs
  unfolding first update_first
  first-update_other p q f [] h k = refl
  first-update_other p q f (x ∷ xs) h k = ground (arith, h x, k x, first-update_other p q f xs h k)

module _ {ℓ κ} {A : Type ℓ} where
  abbrev pub All : (A → Type κ) → List A → Type κ
  All P [] = Unit
  All P (x ∷ xs) = P x × All P xs

  pub All-at : (P : A → Type κ) (xs : List A) {a : A} → All P xs → Memᴰ a xs → P a
  All-at P [] h m = absurd (Memᴰ.not-nil m)
  All-at P (x ∷ xs) h m = ⊎_elim (λ e. subst P (sym e) h.0) (All-at P xs h.1) (Memᴰ.cases_cons m)

  pub All-intro : (P : A → Type κ) (xs : List A) → ((a : A) → Memᴰ a xs → P a) → All P xs
  All-intro P [] f = tt
  All-intro P (x ∷ xs) f = (f x (Memᴰ.head refl), All-intro P xs (λ a m. f a (Memᴰ.tail m)))

  pub All-append : (P : A → Type κ) (xs ys : List A) → All P xs → All P ys → All P (xs ++ ys)
  All-append P [] ys hx hy = hy
  All-append P (x ∷ xs) ys hx hy = (hx.0, All-append P xs ys hx.1 hy)

  pub All-update_first :
      (P : A → Type κ) (q : A → Bool) (f : A → A) (xs : List A)
      → ((a : A) → P a → P (f a))
      → All P xs
      → All P (update_first q f xs)
  unfolding update_first
  All-update_first P q f [] keep h = tt
  All-update_first P q f (x ∷ xs) keep h = elim (Bool-cases (q x)) [
    | inl e ↦ rw e (keep x h.0, h.1)
    | inr e ↦ rw e (h.0, All-update_first P q f xs keep h.1)
  ]

module _ {ℓ κ} {A : Type ℓ} {B : Type κ} where
  -- an update that keeps `key` keeps the keys and their order
  pub map-update_first :
      (key : A → B) (q : A → Bool) (f : A → A) (xs : List A)
      → ((a : A) → key (f a) ≡ key a)
      → map key (update_first q f xs) ≡ map key xs
  unfolding update_first
  map-update_first key q f [] keep = refl
  map-update_first key q f (x ∷ xs) keep = ground (arith, keep x, map-update_first key q f xs keep)

module _ {ℓ} {A : Type ℓ} where
  pub length-select_append :
      (q : A → Bool) (xs ys : List A)
      → length (select q (xs ++ ys)) ≡ length (select q xs) + length (select q ys)
  unfolding select
  length-select_append q [] ys = ground arith
  length-select_append q (x ∷ xs) ys = ground (arith, length-select_append q xs ys)

-- ===== src/Prelude/Uniqueness.antt =====
-- Lists in which no two elements are the same for a Boolean test, as a unique index keeps them.
use mathlib.Core.Path.{◌≡◌, refl}
use mathlib.Core.Bool.{Bool, true, false}
use mathlib.Core.Option.{none, some}
use mathlib.Core.List.{List, [], ◌∷◌, ◌++◌}
use native.Mathlib.Omega.{arith}
use cmdboss.Prelude.Tests.{Bool-cases}
use mathlib.Core.Logic.{inl, inr}
use cmdboss.Prelude.Lists.{any, first, update_first, delete_first, select}

module _ {ℓ} {A : Type ℓ} (same : A → A → Bool) where
  abbrev pub Distinct : List A → Type 0
  Distinct [] = Unit
  Distinct (x ∷ xs) = (any (same x) xs ≡ false) × Distinct xs

  any-concat :
      (p : A → Bool) (d : A) (xs : List A)
      → any p xs ≡ false
      → p d ≡ false
      → any p (xs ++ d ∷ []) ≡ false
  unfolding any
  any-concat p d [] h k = ground arith
  any-concat p d (x ∷ xs) h k = ground (arith, any-concat p d xs)

  -- a new element that is the same as no other
  pub Distinct-concat :
      (d : A) (xs : List A)
      → ((a b : A) → same a b ≡ same b a)
      → Distinct xs
      → any (same d) xs ≡ false
      → Distinct (xs ++ d ∷ [])
  unfolding any
  Distinct-concat d [] symm h k = (refl, tt)
  Distinct-concat d (x ∷ xs) symm h k = (
    any-concat (same x) d xs h.0 (ground (arith, symm x d)),
    Distinct-concat d xs symm h.1 (ground arith),
  )

  any-update_first :
      (p : A → Bool) (q : A → Bool) (f : A → A) (xs : List A)
      → ((a : A) → p (f a) ≡ p a)
      → any p (update_first q f xs) ≡ any p xs
  unfolding any update_first
  any-update_first p q f [] k = refl
  any-update_first p q f (x ∷ xs) k = ground (arith, k x, any-update_first p q f xs)

  -- an update that changes nothing that `same` looks at
  pub Distinct-update_first :
      (q : A → Bool) (f : A → A) (xs : List A)
      → ((a b : A) → same (f a) b ≡ same a b)
      → ((a b : A) → same a (f b) ≡ same a b)
      → Distinct xs
      → Distinct (update_first q f xs)
  unfolding update_first any
  Distinct-update_first q f [] l r h = tt
  Distinct-update_first q f (x ∷ xs) l r h = elim (Bool-cases (q x)) [
    | inl e ↦ rw e (rw (any_keep x xs l) h.0, h.1)
    | inr e ↦
        rw e (rw (any-update_first (same x) q f xs (r x)) h.0, Distinct-update_first q f xs l r h.1)
  ]
    where
      any_keep :
          (x : A) (ys : List A)
          → ((a b : A) → same (f a) b ≡ same a b)
          → any (same (f x)) ys ≡ any (same x) ys
      any_keep x [] k = refl
      any_keep x (y ∷ ys) k = ground (arith, k x y, any_keep x ys k)

  none_else :
      (q : A → Bool) (x : A) (xs : List A)
      → ((b : A) → q b ≡ true → same x b ≡ true)
      → any (same x) xs ≡ false
      → first q xs ≡ none
  unfolding any first
  none_else q x [] k h = refl
  none_else q x (y ∷ ys) k h = ground (arith, k y, none_else q x ys k)

  -- a query with at most one match, and an update after which the match no longer passes
  pub first-update_gone :
      (q : A → Bool) (f : A → A) (xs : List A)
      → Distinct xs
      → ((a b : A) → q a ≡ true → q b ≡ true → same a b ≡ true)
      → ((a : A) → q (f a) ≡ false)
      → first q (update_first q f xs) ≡ none
  unfolding first update_first
  first-update_gone q f [] h one gone = refl
  first-update_gone q f (x ∷ xs) h one gone = elim (Bool-cases (q x)) [
    | inl e ↦ rw e (rw (gone x) (none_else q x xs (λ b. one x b e) h.0))
    | inr e ↦ rw e (rw e (first-update_gone q f xs h.1 one gone))
  ]

  -- the same where the match is deleted
  pub first-delete_gone :
      (q : A → Bool) (xs : List A)
      → Distinct xs
      → ((a b : A) → q a ≡ true → q b ≡ true → same a b ≡ true)
      → first q (delete_first q xs) ≡ none
  unfolding first delete_first
  first-delete_gone q [] h one = refl
  first-delete_gone q (x ∷ xs) h one = elim (Bool-cases (q x)) [
    | inl e ↦ rw e (none_else q x xs (λ b. one x b e) h.0)
    | inr e ↦ rw e (rw e (first-delete_gone q xs h.1 one))
  ]

  any-delete_first :
      (p : A → Bool) (q : A → Bool) (xs : List A)
      → any p xs ≡ false
      → any p (delete_first q xs) ≡ false
  unfolding any delete_first
  any-delete_first p q [] h = refl
  any-delete_first p q (x ∷ xs) h = ground (arith, any-delete_first p q xs)

  pub Distinct-delete_first :
      (q : A → Bool) (xs : List A) → Distinct xs → Distinct (delete_first q xs)
  unfolding delete_first
  Distinct-delete_first q [] h = tt
  Distinct-delete_first q (x ∷ xs) h = elim (Bool-cases (q x)) [
    | inl e ↦ rw e h.1
    | inr e ↦ rw e (any-delete_first (same x) q xs h.0, Distinct-delete_first q xs h.1)
  ]

  any-select :
      (p : A → Bool) (q : A → Bool) (xs : List A) → any p xs ≡ false → any p (select q xs) ≡ false
  unfolding any select
  any-select p q [] h = refl
  any-select p q (x ∷ xs) h = ground (arith, any-select p q xs)

  pub Distinct-select : (q : A → Bool) (xs : List A) → Distinct xs → Distinct (select q xs)
  unfolding select
  Distinct-select q [] h = tt
  Distinct-select q (x ∷ xs) h = elim (Bool-cases (q x)) [
    | inl e ↦ rw e (any-select (same x) q xs h.0, Distinct-select q xs h.1)
    | inr e ↦ rw e (Distinct-select q xs h.1)
  ]

  none_narrower :
      (p q : A → Bool) (xs : List A)
      → ((a : A) → q a ≡ true → p a ≡ true)
      → first p xs ≡ none
      → first q xs ≡ none
  unfolding first
  none_narrower p q [] sub h = refl
  none_narrower p q (x ∷ xs) sub h = ground (arith, sub x, none_narrower p q xs sub)

  -- the one match of a query is that of a narrower query, if that has one; an update of the latter
  -- is seen by the former
  pub first-narrower :
      (p q : A → Bool) (f : A → A) (xs : List A) (a b : A)
      → Distinct xs
      → ((c d : A) → p c ≡ true → p d ≡ true → same c d ≡ true)
      → ((c : A) → q c ≡ true → p c ≡ true)
      → first p xs ≡ some a
      → first q xs ≡ some b
      → p (f b) ≡ true
      → (a ≡ b) × (first p (update_first q f xs) ≡ some (f b))
  unfolding first update_first
  first-narrower p q f [] a b h one sub ha hb keep = cc
  first-narrower p q f (x ∷ xs) a b h one sub ha hb keep = elim (Bool-cases (q x)) [
    | inl e ↦
        let hb' = rw e at hb in
        let ha' = rw (sub x e) at ha in let k : x ≡ b = cc in rw e (cc, rw k (rw keep refl))
    | inr e ↦ elim (Bool-cases (p x)) [
      | inl e' ↦
          let gone = none_narrower p q xs sub (none_else p x xs (λ c. one x c e') h.0) in
          let hb' = rw e at hb in cc
      | inr e' ↦
          rw e (rw e' (first-narrower p q f xs a b h.1 one sub (rw e' at ha) (rw e at hb) keep))
    ]
  ]

-- a test that holds of fewer pairs
module _ {ℓ} {A : Type ℓ} (wide narrow : A → A → Bool) where
  any-narrow :
      (a : A) (xs : List A)
      → ((x : A) → narrow a x ≡ true → wide a x ≡ true)
      → any (wide a) xs ≡ false
      → any (narrow a) xs ≡ false
  unfolding any
  any-narrow a [] sub h = refl
  any-narrow a (x ∷ xs) sub h = ground (arith, sub x, any-narrow a xs sub)

  pub Distinct-narrow :
      (xs : List A)
      → ((a x : A) → narrow a x ≡ true → wide a x ≡ true)
      → Distinct wide xs
      → Distinct narrow xs
  Distinct-narrow [] sub h = tt
  Distinct-narrow (x ∷ xs) sub h = (any-narrow x xs (sub x) h.0, Distinct-narrow xs sub h.1)

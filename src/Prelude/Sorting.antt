-- ===== src/Prelude/Sorting.antt =====
-- Sorting by a Boolean order, which the documents of a sorted query come in, and how it goes with
-- the selection of elements.
use Prim.Native.Nat.{ℕ, zero, suc}
use mathlib.Core.Path.{◌≡◌, refl, ap}
use mathlib.Core.Logic.{◌⊎◌, inl, inr}
use mathlib.Core.Bool.{Bool, true, false, ◌&&◌, not}
use mathlib.Core.List.{List, [], ◌∷◌, ◌++◌, Memᴰ}
use mathlib.Core.List.Memᴰ
use native.Mathlib.Omega.{arith}
use cmdboss.Prelude.Tests.{if◌then◌else◌, Bool-cases}
use cmdboss.Prelude.Lists.{take, select, any, All, All-at, Memᴰ-cons}
use cmdboss.Prelude.Uniqueness.{Distinct}

module _ {D : Type 0} where
  abbrev pub insert_sorted : (D → D → Bool) → D → List D → List D
  insert_sorted le d [] = d ∷ []
  insert_sorted le d (x ∷ xs) =
      let rest = insert_sorted le d xs in if le d x then d ∷ x ∷ xs else x ∷ rest

  abbrev pub sort : (D → D → Bool) → List D → List D
  sort le [] = []
  sort le (x ∷ xs) = insert_sorted le x (sort le xs)

  -- a limit of 0 is no limit
  abbrev pub limited : ℕ → List D → List D
  limited zero xs = xs
  limited (suc n) xs = take (suc n) xs

  -- neither comes before the other
  abbrev pub tie : (D → D → Bool) → D → D → Bool
  tie le a b = le a b && le b a

  abbrev pub IsLinear : (D → D → Bool) → Type 0
  IsLinear le =
      ((a b : D) → (le a b ≡ true) ⊎ (le b a ≡ true))
      × ((a b c : D) → le a b ≡ true → le b c ≡ true → le a c ≡ true)

  -- each element comes before those behind it, and none of them before it
  abbrev pub Before : (D → D → Bool) → D → D → Type 0
  Before le a b = (le a b ≡ true) × (le b a ≡ false)

  abbrev pub IsSorted : (D → D → Bool) → List D → Type 0
  IsSorted le [] = Unit
  IsSorted le (x ∷ xs) = All (Before le x) xs × IsSorted le xs

  pub mem-insert_sorted :
      (le : D → D → Bool) (d x : D) (xs : List D)
      → Memᴰ d (insert_sorted le x xs)
      → (d ≡ x) ⊎ Memᴰ d xs
  mem-insert_sorted le d x [] m = (Memᴰ-cons d x []).0 m
  mem-insert_sorted le d x (y ∷ ys) m = elim (Bool-cases (le x y)) [
    | inl e ↦ (Memᴰ-cons d x (y ∷ ys)).0 (rw e at m)
    | inr e ↦ ground (
      arith,
      (Memᴰ-cons d y (insert_sorted le x ys)).0 (rw e at m),
      mem-insert_sorted le d x ys,
      Memᴰ-cons d y ys,
    )
  ]

  pub mem-sort : (le : D → D → Bool) (d : D) (xs : List D) → Memᴰ d (sort le xs) → Memᴰ d xs
  mem-sort le d [] m = m
  mem-sort le d (x ∷ xs) m =
      ground (arith, mem-insert_sorted le d x (sort le xs) m, mem-sort le d xs, Memᴰ-cons d x xs)

module _ {D : Type 0} (le : D → D → Bool) (linear : IsLinear le) where
  -- what does not come before comes behind
  pub Before-of_not : (a b : D) → le a b ≡ false → Before le b a
  Before-of_not a b h = ground (arith, linear.0 a b)

  pub Before-trans : (a b c : D) → Before le a b → Before le b c → Before le a c
  Before-trans a b c h k = (
    linear.1 a b c h.0 k.0,
    elim (Bool-cases (le c a)) [ inl e ↦ let x = linear.1 c a b e h.0 in cc | inr e ↦ e ],
  )

  All-Before : (a b : D) (xs : List D) → Before le a b → All (Before le b) xs → All (Before le a) xs
  All-Before a b [] h k = tt
  All-Before a b (x ∷ xs) h k = (Before-trans a b x h k.0, All-Before a b xs h k.1)

  All-insert_sorted :
      (P : D → Type 0) (d : D) (xs : List D) → P d → All P xs → All P (insert_sorted le d xs)
  All-insert_sorted P d [] h k = (h, tt)
  All-insert_sorted P d (x ∷ xs) h k = elim (Bool-cases (le d x)) [
    | inl e ↦ rw e (h, k)
    | inr e ↦ rw e (k.0, All-insert_sorted P d xs h k.1)
  ]

  insert_sorted-IsSorted :
      (d : D) (xs : List D)
      → any (tie le d) xs ≡ false
      → IsSorted le xs
      → IsSorted le (insert_sorted le d xs)
  unfolding any
  insert_sorted-IsSorted d [] h k = (tt, tt)
  insert_sorted-IsSorted d (x ∷ xs) h k = elim (Bool-cases (le d x)) [
    | inl e ↦
        let first : Before le d x = (e, ground arith) in
        rw e ((first, All-Before d x xs first k.0), k)
    | inr e ↦ rw e (
      All-insert_sorted (Before le x) d xs (Before-of_not d x e) k.0,
      insert_sorted-IsSorted d xs (ground arith) k.1,
    )
  ]

  any-insert_sorted :
      (p : D → Bool) (d : D) (xs : List D)
      → p d ≡ false
      → any p xs ≡ false
      → any p (insert_sorted le d xs) ≡ false
  unfolding any
  any-insert_sorted p d [] h k = ground arith
  any-insert_sorted p d (x ∷ xs) h k = elim (Bool-cases (le d x)) [
    | inl e ↦ rw e (ground arith)
    | inr e ↦ rw e (ground (arith, any-insert_sorted p d xs))
  ]

  any-sort : (p : D → Bool) (xs : List D) → any p xs ≡ false → any p (sort le xs) ≡ false
  unfolding any
  any-sort p [] h = refl
  any-sort p (x ∷ xs) h =
      any-insert_sorted p x (sort le xs) (ground arith) (any-sort p xs (ground arith))

  -- where no two elements tie, the sorted list is in strict order
  pub sort-IsSorted : (xs : List D) → Distinct (tie le) xs → IsSorted le (sort le xs)
  sort-IsSorted [] h = tt
  sort-IsSorted (x ∷ xs) h =
      insert_sorted-IsSorted x (sort le xs) (any-sort (tie le x) xs h.0) (sort-IsSorted xs h.1)

  insert_sorted-least :
      (d : D) (xs : List D) → All (Before le d) xs → insert_sorted le d xs ≡ d ∷ xs
  insert_sorted-least d [] h = refl
  insert_sorted-least d (x ∷ xs) h = rw h.0.0

  All-select : (P : D → Type 0) (p : D → Bool) (xs : List D) → All P xs → All P (select p xs)
  unfolding select
  All-select P p [] h = tt
  All-select P p (x ∷ xs) h = elim (Bool-cases (p x)) [
    | inl e ↦ rw e (h.0, All-select P p xs h.1)
    | inr e ↦ rw e (All-select P p xs h.1)
  ]

  select-insert_sorted :
      (p : D → Bool) (d : D) (xs : List D)
      → any (tie le d) xs ≡ false
      → IsSorted le xs
      → select p (insert_sorted le d xs)
        ≡ (if p d then insert_sorted le d (select p xs) else select p xs)
  unfolding select any
  select-insert_sorted p d [] h k = ground arith
  select-insert_sorted p d (x ∷ xs) h k = elim (Bool-cases (le d x)) [
    | inl e ↦
        let first : Before le d x = (e, ground arith) in
        let least : All (Before le d) (x ∷ xs) = (first, All-Before d x xs first k.0) in
        rw
          (e, insert_sorted-least d (select p (x ∷ xs)) (All-select (Before le d) p (x ∷ xs) least))
          (ground arith)
    | inr e ↦
        let ih = select-insert_sorted p d xs (ground arith) k.1 in
        rw e (elim (Bool-cases (p x)) [
          | inl e' ↦
              rw (e', ih) (elim (Bool-cases (p d)) [ inl e'' ↦ rw (e'', e) | inr e'' ↦ rw e'' ])
          | inr e' ↦ rw (e', ih)
        ])
  ]

  -- to select from the sorted list is to sort what is selected
  pub select-sort :
      (p : D → Bool) (xs : List D)
      → Distinct (tie le) xs
      → select p (sort le xs) ≡ sort le (select p xs)
  unfolding select
  select-sort p [] h = refl
  select-sort p (x ∷ xs) h =
      rw
        (
          select-insert_sorted p x (sort le xs) (any-sort (tie le x) xs h.0) (sort-IsSorted xs h.1),
          select-sort p xs h.1,
        )
        (ground arith)

  -- the elements behind `d` in strict order are those that do not come before it
  pub select-behind :
      (p : D → Bool) (pre : List D) (d : D) (post : List D)
      → IsSorted le (pre ++ d ∷ post)
      → ((a : D) → Memᴰ a (pre ++ d ∷ post) → p a ≡ not (le a d))
      → select p (pre ++ d ∷ post) ≡ post
  unfolding select
  select-behind p [] d post h same =
      let self : le d d ≡ true = ground (arith, linear.0 d d) in
      rw (same d (Memᴰ.head refl), self) (all post h.0 (λ a m. same a (Memᴰ.tail m)))
    where
      all :
          (xs : List D)
          → All (Before le d) xs
          → ((a : D) → Memᴰ a xs → p a ≡ not (le a d))
          → select p xs ≡ xs
      all [] k s = refl
      all (x ∷ xs) k s =
          rw (s x (Memᴰ.head refl), k.0.1) (ap (λ l. x ∷ l) (all xs k.1 (λ a m. s a (Memᴰ.tail m))))
  select-behind p (x ∷ pre) d post h same =
      let before =
        All-at (Before le x) (pre ++ d ∷ post) h.0 (Memᴰ.append_right pre (Memᴰ.head refl)) in
      rw (same x (Memᴰ.head refl), before.0)
        (select-behind p pre d post h.1 (λ a m. same a (Memᴰ.tail m)))

-- to select by two tests is to select twice
pub select-and {ℓ} :
    {A : Type ℓ} (p q : A → Bool) (xs : List A)
    → select (λ a. p a && q a) xs ≡ select q (select p xs)
unfolding select
select-and p q [] = refl
select-and p q (x ∷ xs) = elim (Bool-cases (p x)) [
  | inl e ↦ rw (e, select-and p q xs) refl
  | inr e ↦ rw (e, select-and p q xs) refl
]

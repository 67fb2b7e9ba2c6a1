-- ===== src/Driver/InMemory.antt =====
-- A collection as the list of its documents: the interface can be met.
use cmdboss.Prelude.{
  ℕ, zero, suc, ◌≤◌, ◌≡◌, refl, ◌⊎◌, inl, inr, Bool, true, false, String, Option, none, some, List,
  [], ◌∷◌, ◌++◌, Memᴰ, Memᴰ-cons, length, take, drop, select, first, any, clashes, update_first,
  delete_first, mem-select, not, if◌then◌else◌, arith, Bool-cases, sort, limited, mem-sort,
}
use mathlib.Core.List.Memᴰ
use cmdboss.Driver.{Driver}

module _ {D : Type 0} where
  abbrev sorted : (D → D → Bool) → ℕ → ℕ → (D → Bool) → List D → List D
  sorted le skip limit q c = limited limit (drop skip (sort le (select q c)))

  mem-drop : (n : ℕ) (d : D) (xs : List D) → Memᴰ d (drop n xs) → Memᴰ d xs
  mem-drop zero d xs m = m
  mem-drop (suc n) d [] m = m
  mem-drop (suc n) d (x ∷ xs) m = Memᴰ.tail (mem-drop n d xs m)

  mem-take : (n : ℕ) (d : D) (xs : List D) → Memᴰ d (take n xs) → Memᴰ d xs
  mem-take zero d xs m = absurd (Memᴰ.not-nil m)
  mem-take (suc n) d [] m = m
  mem-take (suc n) d (x ∷ xs) m =
      ground (arith, (Memᴰ-cons d x (take n xs)).0 m, mem-take n d xs, Memᴰ-cons d x xs)

  mem-limited : (n : ℕ) (d : D) (xs : List D) → Memᴰ d (limited n xs) → Memᴰ d xs
  mem-limited zero d xs m = m
  mem-limited (suc n) d xs m = mem-take (suc n) d xs m

  pub length-take-le : (n : ℕ) (xs : List D) → length (take n xs) ≤ n
  length-take-le zero xs = omega arith
  length-take-le (suc n) [] = omega arith
  length-take-le (suc n) (x ∷ xs) = omega (arith, length-take-le n xs)

  pub mem-sorted :
      (le : D → D → Bool) (skip limit : ℕ) (q : D → Bool) (c : List D) (d : D)
      → Memᴰ d (sorted le skip limit q c)
      → Memᴰ d c × (q d ≡ true)
  mem-sorted le skip limit q c d m = (mem-select q d c).0 (
      mem-sort le d (select q c) (
        mem-drop skip d (sort le (select q c))
          (mem-limited limit d (drop skip (sort le (select q c))) m)))

  abbrev insert : (D → D → Bool) → D → List D → Option (List D)
  insert same d c = if any (same d) c then none else some (c ++ d ∷ [])

  pub insert_cases :
      (same : D → D → Bool) (d : D) (c : List D)
      → (any (same d) c ≡ true) × (insert same d c ≡ none)
        ⊎ ((c' : List D) × (any (same d) c ≡ false)
            × (insert same d c ≡ some c')
            × (c' ≡ c ++ d ∷ []))
  insert_cases same d c = elim (Bool-cases (any (same d) c)) [
    | inl e ↦ inl (e, rw e)
    | inr e ↦ inr (c ++ d ∷ [], e, rw e, refl)
  ]

  abbrev update_unique : (D → D → Bool) → (D → Bool) → (D → D) → List D → Option (List D)
  update_unique same q f c = if clashes same q f c then none else some (update_first q f c)

  pub update_unique_cases :
      (same : D → D → Bool) (q : D → Bool) (f : D → D) (c : List D)
      → (clashes same q f c ≡ true) × (update_unique same q f c ≡ none)
        ⊎ (clashes same q f c ≡ false) × (update_unique same q f c ≡ some (update_first q f c))
  update_unique_cases same q f c = elim (Bool-cases (clashes same q f c)) [
    | inl e ↦ inl (e, rw e)
    | inr e ↦ inr (e, rw e)
  ]

-- a text of n characters stands for the id n
abbrev text_of : ℕ → String
text_of zero = String.[]
text_of (suc n) = String.◌∷◌ "x" (text_of n)

abbrev size_of : String → ℕ
size_of String.[] = 0
size_of (String.◌∷◌ c s) = suc (size_of s)

pub size_of-text_of : (n : ℕ) → some (size_of (text_of n)) ≡ some n
size_of-text_of zero = refl
size_of-text_of (suc n) = ground (arith, size_of-text_of n)

abbrev pub in_memory : Driver
in_memory = record {
  Coll = List;
  docs = λ c. c;
  find = select;
  find_one = first;
  count_documents = λ q c. length (select q c);
  find_sorted = sorted;
  insert_one = insert;
  update_one = update_first;
  update_unique = update_unique;
  delete_one = delete_first;
  delete_many = λ q c. select (λ d. not (q d)) c;
  object_id = λ s. some (size_of s);
  id_text = text_of;
  find_lem = λ q c. refl;
  find_one_lem = λ q c. refl;
  count_lem = λ q c. refl;
  mem-find_sorted = mem-sorted;
  length-find_sorted =
      λ le skip limit q c. length-take-le (suc limit) (drop skip (sort le (select q c)));
  find_sorted_lem = λ le skip limit q c linear ties. refl;
  insert_lem = insert_cases;
  update_unique_lem = update_unique_cases;
  docs-update_one = λ q f c. refl;
  docs-delete_one = λ q c. refl;
  docs-delete_many = λ q c. refl;
  object_id-id_text = size_of-text_of;
}

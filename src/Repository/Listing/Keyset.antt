-- ===== src/Repository/Listing/Keyset.antt =====
-- The page after a cursor is what follows the cursor's document in the whole sorted list.
use cmdboss.Prelude.{
  Dict, select-and, ℕ, ◌≡◌, refl, ◌∙◌, ap, Bool, true, ◌&&◌, not, none, some, List, ◌∷◌, ◌++◌, Memᴰ,
  mem-select, ◌⊎◌, inl, inr, ◌==◌, ==_iff, select, sort, mem-sort, limited, tie, IsLinear, IsSorted,
  sort-IsSorted, select-sort, select-behind, Distinct, Distinct-narrow, Distinct-select, Bool-cases,
  arith, subst,
}
use mathlib.Core.List.Memᴰ
use cmdboss.Value.{Value}
use cmdboss.Documents.{CiDoc}
use cmdboss.Driver.{Driver}
use cmdboss.Cursor.{Codec}
use cmdboss.Store.{Config}
use cmdboss.Repository.Listing.{
  Comparison, SortField, SortKey, sort_value, comes_first, sorted_by, keyset, passes_filters,
  find_page,
}

-- the unique index on `_id`
abbrev pub same_ci_id : CiDoc → CiDoc → Bool
same_ci_id a b = a.id == b.id

module _ (order : Comparison) where
  comes_first_total :
      (f : SortField) (a b : CiDoc)
      → (comes_first order f a b ≡ true) ⊎ (comes_first order f b a ≡ true)
  unfolding comes_first
  comes_first_total f a b = ground (arith, order.le_total (sort_value f a) (sort_value f b))

  comes_first_trans :
      (f : SortField) (a b c : CiDoc)
      → comes_first order f a b ≡ true
      → comes_first order f b c ≡ true
      → comes_first order f a c ≡ true
  unfolding comes_first
  comes_first_trans f a b c h k =
      let x = sort_value f a in
      let y = sort_value f b in
      let z = sort_value f c in
      ground (arith, order.le_trans x y z, order.le_trans z x y, order.le_trans y z x)

  sorted_by-IsLinear : (k : SortKey) → IsLinear (sorted_by order k)
  unfolding sorted_by
  sorted_by-IsLinear k = elim (Bool-cases k.descending) [
    | inl e ↦
        rw e
          (λ a b. comes_first_total k.field b a, λ a b c h h'. comes_first_trans k.field c b a h' h)
    | inr e ↦ rw e (comes_first_total k.field, comes_first_trans k.field)
  ]

  -- documents that tie have one id
  tie-same_ci_id :
      (k : SortKey) (a b : CiDoc) → tie (sorted_by order k) a b ≡ true → same_ci_id a b ≡ true
  unfolding sorted_by comes_first
  tie-same_ci_id k a b h = ground (arith, ==_iff a.id b.id)

  -- the query of a cursor selects what the sort puts behind its document
  keyset_behind :
      (k : SortKey) (a d : CiDoc)
      → order.comparable (sort_value k.field a) (sort_value k.field d) ≡ true
      → keyset order k (sort_value k.field d) d.id a ≡ not (sorted_by order k a d)
  unfolding keyset sorted_by comes_first
  keyset_behind k a d h =
      let x = sort_value k.field a in
      let y = sort_value k.field d in
      rw (order.gt_lem x y h, order.lt_lem x y h, order.eq_lem x y h) (ground arith)

module _ (mongo : Driver) (cfg : Config mongo) (codec : Codec cfg.iso) (order : Comparison) where
  -- every document that the filters let through, in the order of the list
  abbrev pub whole_list : SortKey → (CiDoc → Bool) → mongo.Coll CiDoc → List CiDoc
  whole_list k q c = sort (sorted_by order k) (select q (mongo.docs c))

  -- the values that the list is sorted by are all of one class
  abbrev pub HasOneClass : SortKey → (CiDoc → Bool) → mongo.Coll CiDoc → Type 0
  HasOneClass k q c =
      (a d : CiDoc)
      → Memᴰ a (mongo.docs c)
      → q a ≡ true
      → Memᴰ d (mongo.docs c)
      → q d ≡ true
      → order.comparable (sort_value k.field a) (sort_value k.field d) ≡ true

  no_ties :
      (k : SortKey) (c : mongo.Coll CiDoc)
      → Distinct same_ci_id (mongo.docs c)
      → Distinct (tie (sorted_by order k)) (mongo.docs c)
  no_ties k c unique =
      Distinct-narrow same_ci_id (tie (sorted_by order k)) (mongo.docs c) (tie-same_ci_id order k)
        unique

  pub start_page :
      (k : SortKey) (q : Dict Value) (limit : ℕ) (c : mongo.Coll CiDoc)
      → Distinct same_ci_id (mongo.docs c)
      → find_page mongo cfg codec order k q none 0 limit c
        ≡ limited limit (whole_list k (passes_filters order q) c)
  unfolding find_page
  start_page k q limit c unique =
      mongo.find_sorted_lem (sorted_by order k) 0 limit (passes_filters order q) c
        (sorted_by-IsLinear order k) (no_ties k c unique)

  -- the documents behind `d` are those that the cursor's query adds to the filters
  select-keyset :
      (k : SortKey) (p : CiDoc → Bool) (c : mongo.Coll CiDoc) (pre : List CiDoc) (d : CiDoc)
      (post : List CiDoc)
      → Distinct same_ci_id (mongo.docs c)
      → HasOneClass k p c
      → whole_list k p c ≡ pre ++ d ∷ post
      → sort
          (sorted_by order k)
          (select (λ a. p a && keyset order k (sort_value k.field d) d.id a) (mongo.docs c))
        ≡ post
  select-keyset k p c pre d post unique one whole =
      let le = sorted_by order k in
      let after = keyset order k (sort_value k.field d) d.id in
      let chosen = select p (mongo.docs c) in
      let linear = sorted_by-IsLinear order k in
      let ties = Distinct-select (tie le) p (mongo.docs c) (no_ties k c unique) in
      let inside : (a : CiDoc) → Memᴰ a (pre ++ d ∷ post) → Memᴰ a (mongo.docs c) × (p a ≡ true) =
        λ a m. (mem-select p a (mongo.docs c)).0 (mem-sort le a chosen (rw whole m)) in
      let at = inside d (Memᴰ.append_right pre (Memᴰ.head refl)) in
      rw (select-and p after (mongo.docs c), ← select-sort le linear after chosen ties, whole)
        (select-behind le linear after pre d post
          (subst (IsSorted le) whole (sort-IsSorted le linear chosen ties))
          (λ a m. keyset_behind order k a d (one a d (inside a m).0 (inside a m).1 at.0 at.1)))

  pub next_page :
      (k : SortKey) (q : Dict Value) (offset limit : ℕ) (c : mongo.Coll CiDoc) (pre : List CiDoc)
      (d : CiDoc) (post : List CiDoc)
      → Distinct same_ci_id (mongo.docs c)
      → HasOneClass k (passes_filters order q) c
      → whole_list k (passes_filters order q) c ≡ pre ++ d ∷ post
      → find_page mongo cfg codec order k q (some (sort_value k.field d, d.id)) offset limit c
        ≡ limited limit post
  unfolding find_page
  next_page k q offset limit c pre d post unique one whole =
      mongo.find_sorted_lem (sorted_by order k) 0 limit
        (λ a. passes_filters order q a && keyset order k (sort_value k.field d) d.id a) c
        (sorted_by-IsLinear order k) (no_ties k c unique)
      ∙ ap (limited limit) (select-keyset k (passes_filters order q) c pre d post unique one whole)

-- ===== src/Relationships/Bfs/Scan.antt =====
-- What the inner loop of a traversal adds to the search.
use cmdboss.Prelude.{
  map, ◌≡◌, ◌⊎◌, ◌↔◌, refl, sym, ap, ◌∙◌, true, List, [], ◌∷◌, Memᴰ, Memᴰ-cons, Memᴰ-concat, any,
  inl, inr, Bool-cases, arith, eq_iff, ==_iff, ⊎_elim,
}
use mathlib.Core.List.Memᴰ
use cmdboss.Documents.{EdgeDoc}
use cmdboss.Relationships.Bfs.{Node, Direction, same_node, far, Search, visit, scan}

pub same_node_iff : (m n : Node) → (same_node m n ≡ true) ↔ (m ≡ n)
unfolding same_node
same_node_iff (t, i) (t', i') = (
  λ h.
      let a : t ≡ t' = ground (arith, eq_iff t t') in
      let b : i ≡ i' = ground (arith, ==_iff i i') in cc,
  λ e.
      let a : t ≡ t' = ap (λ n. n.0) e in
      let b : i ≡ i' = ap (λ n. n.1) e in ground (arith, eq_iff t t', ==_iff i i'),
)

pub any-same_node : (n : Node) (xs : List Node) → (any (same_node n) xs ≡ true) ↔ Memᴰ n xs
unfolding any
any-same_node n [] = (λ h. cc, λ m. absurd (Memᴰ.not-nil m))
any-same_node n (x ∷ xs) = ground (arith, same_node_iff n x, Memᴰ-cons n x xs, any-same_node n xs)

pub mem-map :
    {A B : Type 0} (f : A → B) (v : B) (xs : List A)
    → Memᴰ v (map f xs) ↔ ((a : A) × Memᴰ a xs × (f a ≡ v))
mem-map f v [] = (λ m. absurd (Memᴰ.not-nil m), λ (a, m, e). absurd (Memᴰ.not-nil m))
mem-map f v (x ∷ xs) = (
  λ m. elim ((Memᴰ-cons v (f x) (map f xs)).0 m) [
    | inl e ↦ (x, (Memᴰ-cons x x xs).1 (inl refl), sym e)
    | inr m' ↦ let (a, k, e) = (mem-map f v xs).0 m' in (a, (Memᴰ-cons a x xs).1 (inr k), e)
  ],
  λ (a, m, e). elim ((Memᴰ-cons a x xs).0 m) [
    | inl k ↦ (Memᴰ-cons v (f x) (map f xs)).1 (inl (sym e ∙ ap f k))
    | inr k ↦ (Memᴰ-cons v (f x) (map f xs)).1 (inr ((mem-map f v xs).1 (a, k, e)))
  ],
)

-- the inner loop
module _ (dir : Direction) where
  visited-visit :
      (e : EdgeDoc) (s : Search) (v : Node)
      → Memᴰ v (visit dir e s).visited ↔ (Memᴰ v s.visited ⊎ (v ≡ far dir e))
  unfolding visit
  visited-visit e s v = elim (Bool-cases (any (same_node (far dir e)) s.visited)) [
    | inl k ↦
        rw k (inl, λ m. ⊎_elim (λ a. a) (λ q. rw q ((any-same_node (far dir e) s.visited).0 k)) m)
    | inr k ↦ rw k (Memᴰ-concat v (far dir e) s.visited)
  ]

  frontier-visit :
      (e : EdgeDoc) (s : Search) (v : Node)
      → (Memᴰ v s.frontier → Memᴰ v (visit dir e s).frontier)
        × (Memᴰ v (visit dir e s).frontier → Memᴰ v s.frontier ⊎ (v ≡ far dir e))
        × (Memᴰ v (visit dir e s).visited → Memᴰ v s.visited ⊎ Memᴰ v (visit dir e s).frontier)
  unfolding visit
  frontier-visit e s v = elim (Bool-cases (any (same_node (far dir e)) s.visited)) [
    | inl k ↦ rw k (λ m. m, inl, inl)
    | inr k ↦ rw k (
      λ m. (Memᴰ-concat v (far dir e) s.frontier).1 (inl m),
      (Memᴰ-concat v (far dir e) s.frontier).0,
      λ m.
          ground (arith, Memᴰ-concat v (far dir e) s.frontier, Memᴰ-concat v (far dir e) s.visited),
    )
  ]

  nodes-visit :
      (e : EdgeDoc) (s : Search) (n v : Node)
      → (Memᴰ v s.visited ↔ ((v ≡ n) ⊎ Memᴰ v s.nodes))
      → Memᴰ v (visit dir e s).visited ↔ ((v ≡ n) ⊎ Memᴰ v (visit dir e s).nodes)
  unfolding visit
  nodes-visit e s n v h = elim (Bool-cases (any (same_node (far dir e)) s.visited)) [
    | inl k ↦ rw k h
    | inr k ↦
        rw k (
          ground (arith, h, Memᴰ-concat v (far dir e) s.nodes, Memᴰ-concat v (far dir e) s.visited))
  ]

  pub visited-scan :
      (xs : List EdgeDoc) (s : Search) (v : Node)
      → Memᴰ v (scan dir xs s).visited ↔ (Memᴰ v s.visited ⊎ Memᴰ v (map (far dir) xs))
  unfolding scan
  visited-scan [] s v = (inl, λ m. ⊎_elim (λ a. a) (λ q. absurd (Memᴰ.not-nil q)) m)
  visited-scan (x ∷ xs) s v = ground (
    arith,
    visited-scan xs (visit dir x s) v,
    visited-visit x s v,
    Memᴰ-cons v (far dir x) (map (far dir) xs),
  )

  pub frontier-scan :
      (xs : List EdgeDoc) (s : Search) (v : Node)
      → (Memᴰ v s.frontier → Memᴰ v (scan dir xs s).frontier)
        × (Memᴰ v (scan dir xs s).frontier → Memᴰ v s.frontier ⊎ Memᴰ v (map (far dir) xs))
        × (Memᴰ v (scan dir xs s).visited → Memᴰ v s.visited ⊎ Memᴰ v (scan dir xs s).frontier)
  unfolding scan
  frontier-scan [] s v = (λ m. m, inl, inl)
  frontier-scan (x ∷ xs) s v =
      let (a, b, c) = frontier-scan xs (visit dir x s) v in
      let (a', b', c') = frontier-visit x s v in
      (
        λ m. a (a' m),
        λ m. ground (arith, b m, b', Memᴰ-cons v (far dir x) (map (far dir) xs)),
        λ m. ground (arith, c m, c', a),
      )

  pub nodes-scan :
      (xs : List EdgeDoc) (s : Search) (n v : Node)
      → (Memᴰ v s.visited ↔ ((v ≡ n) ⊎ Memᴰ v s.nodes))
      → Memᴰ v (scan dir xs s).visited ↔ ((v ≡ n) ⊎ Memᴰ v (scan dir xs s).nodes)
  unfolding scan
  nodes-scan [] s n v h = h
  nodes-scan (x ∷ xs) s n v h = nodes-scan xs (visit dir x s) n v (nodes-visit x s n v h)

-- ===== src/Relationships/Bfs/Reach.antt =====
-- What a traversal finds: the nodes that paths of relationships lead to.
use cmdboss.Prelude.{
  map, ℕ, zero, suc, ◌≡◌, ◌⊎◌, ◌↔◌, refl, Bool, true, false, ◌||◌, not, List, [], ◌∷◌, Memᴰ,
  Memᴰ-cons, inl, inr, arith, ⊎_elim,
}
use mathlib.Core.List.Memᴰ
use cmdboss.Documents.{EdgeDoc}
use cmdboss.Driver.{Driver}
use cmdboss.Driver.Laws.{mem-find}
use cmdboss.Relationships.Bfs.{
  Node, Direction, near, far, touches, Search, expand, rounds, start, is_truncated, bfs,
}
use cmdboss.Relationships.Bfs.Scan.{any-same_node, mem-map, visited-scan, frontier-scan, nodes-scan}

-- a path of relationships, over those that the traversal may use
module _ (es : List EdgeDoc) (dir : Direction) (dependency_only : Bool) where
  unfoldable pub Step : Node → Node → Type 0
  Step u v =
      (e : EdgeDoc) × Memᴰ e es
      × (near dir e ≡ u)
      × (far dir e ≡ v)
      × ((not dependency_only || e.dependency) ≡ true)

  pub data Reach : Node → Node → Type 0 where
    here : {u : Node} → Reach u u
    step : {u v w : Node} → Reach u v → Step v w → Reach u w

module _ (mongo : Driver) (graph : mongo.Coll EdgeDoc) (dir : Direction) (dependency_only : Bool)
    (n : Node) where
  abbrev Known : Node → Type 0
  Known = Reach (mongo.docs graph) dir dependency_only n

  -- what holds between the rounds
  record Inv (s : Search) : Type 0 where
    based : (v : Node) → Memᴰ v s.visited ↔ ((v ≡ n) ⊎ Memᴰ v s.nodes)
    queued : (v : Node) → Memᴰ v s.frontier → Memᴰ v s.visited
    sound : (v : Node) → Memᴰ v s.visited → Known v
    closed :
        (u v : Node)
        → Memᴰ u s.visited
        → Step (mongo.docs graph) dir dependency_only u v
        → Memᴰ u s.frontier ⊎ Memᴰ v s.visited

  Inv-start : Inv (start mongo graph dir dependency_only n)
  unfolding start
  Inv-start = record {
    based = λ v. ground (arith, Memᴰ-cons v n [], λ (m : Memᴰ v []). Memᴰ.not-nil m);
    queued = λ v m. m;
    sound = λ v m. rw (Memᴰ.eq_of_singleton m) here;
    closed = λ u v m k. inl m;
  }

  -- the relationships that a round reads
  found : Search → List EdgeDoc
  found s = mongo.find (touches dir dependency_only s.frontier) graph

  far-found :
      (s : Search) (v : Node)
      → Memᴰ v (map (far dir) (found s))
      → (u : Node) × Memᴰ u s.frontier × Step (mongo.docs graph) dir dependency_only u v
  unfolding found touches Step
  far-found s v m =
      let (e, k, to) = (mem-map (far dir) v (found s)).0 m in
      let (mem, hit) = (mem-find mongo (touches dir dependency_only s.frontier) graph e).0 k in
      (
        near dir e,
        (any-same_node (near dir e) s.frontier).0 (ground arith),
        (e, mem, refl, to, ground arith),
      )

  step_found :
      (s : Search) (u v : Node)
      → Memᴰ u s.frontier
      → Step (mongo.docs graph) dir dependency_only u v
      → Memᴰ v (map (far dir) (found s))
  unfolding found touches Step
  step_found s u v m (e, mem, from, to, dep) = (mem-map (far dir) v (found s)).1 (
    e,
    (mem-find mongo (touches dir dependency_only s.frontier) graph e).1
        (mem, ground (arith, (any-same_node (near dir e) s.frontier).1 (rw from m))),
    to,
  )

  Inv-expand : (s : Search) → Inv s → Inv (expand mongo graph dir dependency_only s)
  unfolding expand found
  Inv-expand s h =
      let s0 = record s { frontier = [] } in
      let marks = λ (v : Node). visited-scan dir (found s) s0 v in
      let queue = λ (v : Node). frontier-scan dir (found s) s0 v in
      record {
        based = λ v. nodes-scan dir (found s) s0 n v (h.based v);
        queued = λ v m.
            (marks v).1 (inr (⊎_elim (λ k. absurd (Memᴰ.not-nil k)) (λ k. k) ((queue v).1 m)));
        sound = λ v m. elim ((marks v).0 m) [
          | inl k ↦ h.sound v k
          | inr k ↦ let (u, q, st) = far-found s v k in step (h.sound u (h.queued u q)) st
        ];
        closed = λ u v m st. elim ((queue u).2 m) [
          | inr k ↦ inl k
          | inl k ↦ elim (h.closed u v k st) [
            | inl q ↦ inr ((marks v).1 (inr (step_found s u v q st)))
            | inr q ↦ inr ((marks v).1 (inl q))
          ]
        ];
      }

  Inv-rounds : (k : ℕ) (s : Search) → Inv s → Inv (rounds mongo graph dir dependency_only k s)
  unfolding rounds
  Inv-rounds zero s h = h
  Inv-rounds (suc k) s h =
      elim s.frontier
        as (λ f. Inv (elim f [
          | [] ↦ s
          | _ ∷ _ ↦
              rounds mongo graph dir dependency_only k (expand mongo graph dir dependency_only s)
        ])) [
          | [] ↦ h
          | x ∷ xs ↦ Inv-rounds k (expand mongo graph dir dependency_only s) (Inv-expand s h)
        ]

  Inv-bfs : (k : ℕ) → Inv (bfs mongo graph dir dependency_only k n)
  unfolding bfs
  Inv-bfs k = Inv-rounds k (start mongo graph dir dependency_only n) Inv-start

  nothing_left :
      (v : Node) (f : List Node) → elim f [ [] ↦ false | _ ∷ _ ↦ true ] ≡ false → Memᴰ v f → ⊥
  nothing_left v [] h m = Memᴰ.not-nil m
  nothing_left v (x ∷ xs) h m = cc

  complete :
      (s : Search) (v : Node)
      → Inv s
      → is_truncated mongo graph dir dependency_only s ≡ false
      → Known v
      → Memᴰ v s.visited
  unfolding is_truncated
  complete s v h whole here = (h.based n).1 (inl refl)
  complete s w h whole (step {v} p st) = elim (h.closed v w (complete s v h whole p) st) [
    | inr m ↦ m
    | inl m ↦ absurd (nothing_left v s.frontier whole m)
  ]

  -- Every node that a traversal lists is at the end of a path of relationships from its start.
  pub bfs_sound :
      (max_depth : ℕ) (v : Node)
      → Memᴰ v (bfs mongo graph dir dependency_only max_depth n).nodes
      → Reach (mongo.docs graph) dir dependency_only n v
  bfs_sound max_depth v m = let h = Inv-bfs max_depth in h.sound v ((h.based v).1 (inr m))

  -- A traversal that is not reported as truncated lists every node, apart from its start, to which a
  -- path of relationships leads from the start.
  pub bfs_complete :
      (max_depth : ℕ) (v : Node)
      → is_truncated mongo graph dir dependency_only
          (bfs mongo graph dir dependency_only max_depth n)
        ≡ false
      → Reach (mongo.docs graph) dir dependency_only n v
      → (v ≡ n) ⊎ Memᴰ v (bfs mongo graph dir dependency_only max_depth n).nodes
  bfs_complete max_depth v whole p =
      let h = Inv-bfs max_depth in
      (h.based v).0 (complete (bfs mongo graph dir dependency_only max_depth n) v h whole p)

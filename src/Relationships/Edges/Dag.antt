-- ===== src/Relationships/Edges/Dag.antt =====
-- Paths of dependencies, and what one more relationship adds to them.
use cmdboss.Prelude.{
  ◌≡◌, ◌⊎◌, sym, ap, ◌∙◌, subst, true, false, List, [], ◌∷◌, ◌++◌, Memᴰ-concat, inl, inr,
}
use cmdboss.Documents.{EdgeDoc}
use cmdboss.Relationships.Bfs.{Node, Direction, near, far}
use cmdboss.Relationships.Bfs.Reach.{Step, Reach, here, step}

module _ (es : List EdgeDoc) where
  abbrev pub Leads : Node → Node → Type 0
  Leads = Reach es Direction.outward true

  Leads-trans : {u v w : Node} → Leads u v → Leads v w → Leads u w
  Leads-trans p here = p
  Leads-trans p (step q st) = step (Leads-trans p q) st

  -- no dependency leads back to where it starts
  unfoldable pub IsAcyclic : Type 0
  IsAcyclic = (u v : Node) → ¬ (Step es Direction.outward true u v × Leads v u)

module _ (es : List EdgeDoc) (e : EdgeDoc) where
  -- a step over one more relationship is an old one, or goes over the new one
  Step-cases :
      (u v : Node)
      → Step (es ++ e ∷ []) Direction.outward true u v
      → Step es Direction.outward true u v
        ⊎ ((u ≡ near Direction.outward e) × (v ≡ far Direction.outward e))
  unfolding Step
  Step-cases u v (x, mem, from, to, dep) = elim ((Memᴰ-concat x e es).0 mem) [
    | inl k ↦ inl (x, k, from, to, dep)
    | inr k ↦ inr (sym from ∙ ap (near Direction.outward) k, sym to ∙ ap (far Direction.outward) k)
  ]

  Leads-cases :
      (u v : Node)
      → Leads (es ++ e ∷ []) u v
      → Leads es u v
        ⊎ (Leads es u (near Direction.outward e) × Leads es (far Direction.outward e) v)
  Leads-cases u v here = inl here
  Leads-cases u w (step {v} p st) = elim (Leads-cases u v p) [
    | inl q ↦ elim (Step-cases v w st) [
      | inl st' ↦ inl (step q st')
      | inr (from, to) ↦ inr (subst (Leads es u) from q, rw to here)
    ]
    | inr (q, q') ↦ elim (Step-cases v w st) [
      | inl st' ↦ inr (q, step q' st')
      | inr (from, to) ↦ inr (q, rw to here)
    ]
  ]

  pub IsAcyclic-concat :
      IsAcyclic es
      → ¬ Leads es (far Direction.outward e) (near Direction.outward e)
      → IsAcyclic (es ++ e ∷ [])
  unfolding IsAcyclic
  IsAcyclic-concat h open_end u v (st, p) = elim (Step-cases u v st) [
    | inl st' ↦ elim (Leads-cases v u p) [
      | inl q ↦ h u v (st', q)
      | inr (q, q') ↦ open_end (Leads-trans es (step q' st') q)
    ]
    | inr (from, to) ↦ elim (Leads-cases v u p) [
      | inl q ↦
          open_end
            (subst (λ a. Leads es a (near Direction.outward e)) to (subst (Leads es v) from q))
      | inr (q, q') ↦ open_end (subst (Leads es (far Direction.outward e)) from q')
    ]
  ]

  -- a relationship that is no dependency is not seen
  Step-other :
      (u v : Node)
      → e.dependency ≡ false
      → Step (es ++ e ∷ []) Direction.outward true u v
      → Step es Direction.outward true u v
  unfolding Step
  Step-other u v off (x, mem, from, to, dep) = elim ((Memᴰ-concat x e es).0 mem) [
    | inl k ↦ (x, k, from, to, dep)
    | inr k ↦ let d : x.dependency ≡ false = ap (λ y. y.dependency) k ∙ off in cc
  ]

  Leads-other : (u v : Node) → e.dependency ≡ false → Leads (es ++ e ∷ []) u v → Leads es u v
  Leads-other u v off here = here
  Leads-other u w off (step {v} p st) = step (Leads-other u v off p) (Step-other v w off st)

  pub IsAcyclic-other : e.dependency ≡ false → IsAcyclic es → IsAcyclic (es ++ e ∷ [])
  unfolding IsAcyclic
  IsAcyclic-other off h u v (st, p) = h u v (Step-other u v off st, Leads-other v u off p)

-- ===== src/Relationships/Queries/Duality.antt =====
-- The two analyses are dual: what a CI depends on is what has an impact on it.
use cmdboss.Prelude.{◌≡◌, ◌⊎◌, refl, Bool, true, false, List, Memᴰ, inl, inr}
use cmdboss.Documents.{EdgeDoc}
use cmdboss.Driver.{Driver}
use cmdboss.Store.{Store, Config}
use cmdboss.Relationships.Bfs.{Node, Direction, near, far, bfs}
use cmdboss.Relationships.Bfs.Reach.{Step, Reach, here, step, bfs_sound, bfs_complete}
use cmdboss.Relationships.Bfs.Scan.{mem-map}
use cmdboss.Relationships.Queries.{analysis, node_ref}

module _ (es : List EdgeDoc) (b : Bool) where
  Step-turned : (u v : Node) → Step es Direction.outward b u v → Step es Direction.inward b v u
  unfolding Step near far
  Step-turned u v (e, mem, from, to, dep) = (e, mem, to, from, dep)

  Reach-prepend :
      {u v w : Node}
      → Step es Direction.inward b u v
      → Reach es Direction.inward b v w
      → Reach es Direction.inward b u w
  Reach-prepend st here = step here st
  Reach-prepend st (step p st') = step (Reach-prepend st p) st'

  Reach-turned : {u v : Node} → Reach es Direction.outward b u v → Reach es Direction.inward b v u
  Reach-turned here = here
  Reach-turned (step {v} {w} p st) = Reach-prepend (Step-turned v w st) (Reach-turned p)

module _ (mongo : Driver) (cfg : Config mongo) where
  -- A CI that a CI depends on, as `dependencies` lists it, has that CI in its own `impact`, unless the
  -- two are the same or the traversal of `impact` was cut off.
  pub impact_dual :
      (s : Store mongo) (u v : Node)
      → Memᴰ v (bfs mongo s.edges Direction.outward true cfg.graph_max_depth u).nodes
      → (analysis mongo cfg Direction.inward v.0 (mongo.id_text v.1) v.1 s).truncated ≡ false
      → (u ≡ v)
        ⊎ Memᴰ
            (node_ref mongo cfg u)
            (analysis mongo cfg Direction.inward v.0 (mongo.id_text v.1) v.1 s).nodes
  unfolding analysis
  impact_dual s u v m whole =
      elim (bfs_complete mongo s.edges Direction.inward true v cfg.graph_max_depth u whole (
        Reach-turned (mongo.docs s.edges) true
          (bfs_sound mongo s.edges Direction.outward true u cfg.graph_max_depth v m))) [
            | inl same ↦ inl same
            | inr k ↦ inr (
                (mem-map (node_ref mongo cfg) (node_ref mongo cfg u)
                    (bfs mongo s.edges Direction.inward true cfg.graph_max_depth v).nodes).1
                  (u, k, refl))
          ]

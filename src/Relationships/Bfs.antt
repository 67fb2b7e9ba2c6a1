-- ===== src/Relationships/Bfs.antt =====
-- `_bfs` of RelationshipRepository in cmdboss/graph.py, on the relationships that the queries read.
-- A node is its type and its ObjectId; the strings that the code keeps of the ids are one to one.
pub mod Scan
pub mod Reach
use cmdboss.Prelude.{
  ℕ, zero, suc, String, Bool, true, false, ◌&&◌, ◌||◌, not, List, [], ◌∷◌, ◌++◌, map, any, str_eq,
  ◌==◌, if◌then◌else◌,
}
use cmdboss.Documents.{EdgeDoc, Edge, NodeRef, serialize_edge}
use cmdboss.Value.{Spelling}
use cmdboss.Driver.{Driver}

abbrev pub Node : Type 0
Node = String × ℕ

pub data Direction : Type 0 where
  outward inward : Direction

unfoldable pub same_node : Node → Node → Bool
same_node (t, i) (t', i') = str_eq t t' && i == i'

-- the end of an edge where a traversal stands, and the one where it goes
unfoldable pub near : Direction → EdgeDoc → Node
near Direction.outward e = (e.from_type, e.from_id)
near Direction.inward e = (e.to_type, e.to_id)

unfoldable pub far : Direction → EdgeDoc → Node
far Direction.outward e = (e.to_type, e.to_id)
far Direction.inward e = (e.from_type, e.from_id)

-- the query of one round: {"$or": ors}, and {"dependency": True} where asked for
unfoldable pub touches : Direction → Bool → List Node → EdgeDoc → Bool
touches dir dependency_only frontier e =
    any (same_node (near dir e)) frontier && (not dependency_only || e.dependency)

pub record Search : Type 0 where
  pub visited : List Node
  pub frontier : List Node
  pub nodes : List Node
  pub edges : List EdgeDoc

-- the body of the inner loop, which adds to the next frontier
unfoldable pub visit : Direction → EdgeDoc → Search → Search
visit dir e s =
    let key = far dir e in
    if any (same_node key) s.visited then record s { edges = s.edges ++ e ∷ [] } else record {
      visited = s.visited ++ key ∷ [];
      frontier = s.frontier ++ key ∷ [];
      nodes = s.nodes ++ key ∷ [];
      edges = s.edges ++ e ∷ [];
    }

unfoldable pub scan : Direction → List EdgeDoc → Search → Search
scan dir [] s = s
scan dir (e ∷ es) s = scan dir es (visit dir e s)

module _ (mongo : Driver) (graph : mongo.Coll EdgeDoc) (dir : Direction)
    (dependency_only : Bool) where
  -- one round
  unfoldable pub expand : Search → Search
  expand s =
      scan dir (mongo.find (touches dir dependency_only s.frontier) graph)
        (record s { frontier = [] })

  -- `for _ in range(self._max_depth)`, left early when the frontier is empty
  unfoldable pub rounds : ℕ → Search → Search
  rounds zero s = s
  rounds (suc n) s = let rest = rounds n (expand s) in elim s.frontier [ [] ↦ s | _ ∷ _ ↦ rest ]

  unfoldable pub start : Node → Search
  start n = record { visited = n ∷ []; frontier = n ∷ []; nodes = []; edges = [] }

  -- `truncated`: bool(frontier)
  unfoldable pub is_truncated : Search → Bool
  is_truncated s = elim s.frontier [ [] ↦ false | _ ∷ _ ↦ true ]

  unfoldable pub bfs : ℕ → Node → Search
  bfs max_depth n = rounds max_depth (start n)

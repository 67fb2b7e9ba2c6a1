-- ===== src/Relationships/Queries.antt =====
-- The reads of RelationshipRepository in cmdboss/graph.py: the lists of relationships, and the two
-- analyses that the traversal serves.
pub mod Duality
use cmdboss.Prelude.{
  ℕ, String, Bool, true, false, ◌&&◌, ◌||◌, Option, none, some, List, [], map, min, max, length,
  str_eq, ◌==◌, leb, if◌then◌else◌,
}
use cmdboss.Text.{lower}
use cmdboss.Errors.{Error}
use cmdboss.Errors.Result.{Result, ok, err, Exec, pure, raise, ◌>>=◌}
use cmdboss.Documents.{EdgeDoc, Edge, NodeRef, serialize_edge}
use cmdboss.Driver.{Driver}
use cmdboss.Store.{Store, Config, spelling}
use cmdboss.Repository.{parse_object_id}
use cmdboss.Relationships.Bfs.{Node, Direction, same_node, Search, bfs, is_truncated}

-- the keyword arguments of `list_edges`: an empty text is no filter
pub record EdgeFilter : Type 0 where
  pub rel_type : Option String
  pub from_type : Option String
  pub from_id : Option String
  pub to_type : Option String
  pub to_id : Option String
  pub limit : ℕ
  pub offset : ℕ

-- if x: query[field] = x.lower()
unfoldable pub asks : Option String → String → Bool
asks none value = true
asks (some x) value = str_eq x "" || str_eq (lower x) value

-- the query of `list_edges`, with the ids that were parsed
unfoldable pub passes : EdgeFilter → Option ℕ → Option ℕ → EdgeDoc → Bool
passes q from_id to_id e =
    asks q.rel_type e.rel_type
    && (asks q.from_type e.from_type
        && (is from_id e.from_id && (asks q.to_type e.to_type && is to_id e.to_id)))
  where
    is : Option ℕ → ℕ → Bool
    is none n = true
    is (some m) n = n == m

-- {"items": …, "paging": {…}}
pub record EdgePage : Type 0 where
  pub items : List Edge
  pub page_limit : ℕ
  pub page_offset : ℕ
  pub returned : ℕ

-- the result of `dependencies` and of `impact`
pub record Analysis : Type 0 where
  pub root : NodeRef
  pub nodes : List NodeRef
  pub edges : List Edge
  pub truncated : Bool
  pub max_depth : ℕ

module _ (mongo : Driver) (cfg : Config mongo) where
  -- if x: query[field] = parse_object_id(x)
  unfoldable pub optional_id : Option String → Exec (Store mongo) (Option ℕ)
  optional_id none s = (ok none, s)
  optional_id (some x) s =
      if str_eq x "" then (ok none, s) else (parse_object_id mongo cfg x >>= (λ n. pure (some n))) s

  unfoldable pub page_of : EdgeFilter → Option ℕ → Option ℕ → Store mongo → EdgePage
  page_of q from_id to_id s =
      let limit = max 1 (min q.limit cfg.max_page_size) in
      let items = map (serialize_edge (spelling mongo cfg)) (
        mongo.find_sorted (λ a b. leb b.id a.id) q.offset limit (passes q from_id to_id) s.edges) in
      record { items = items; page_limit = limit; page_offset = q.offset; returned = length items }

  unfoldable pub list_edges : EdgeFilter → Exec (Store mongo) EdgePage
  list_edges q = do
    from_id ← optional_id q.from_id
    to_id ← optional_id q.to_id
    (λ s. (ok (page_of q from_id to_id s), s))

  -- the clauses of `neighbors`: any text may stand for the direction
  unfoldable pub beside : String → Node → EdgeDoc → Bool
  beside direction n e =
      (str_eq direction "out" || str_eq direction "both") && same_node (e.from_type, e.from_id) n
      || (str_eq direction "in" || str_eq direction "both") && same_node (e.to_type, e.to_id) n

  unfoldable pub has_direction : String → Bool
  has_direction direction =
      str_eq direction "out" || (str_eq direction "both" || str_eq direction "in")

  -- the relationships of the result of `neighbors`
  unfoldable pub neighbors :
      String → String → String → Option String → Exec (Store mongo) (List Edge)
  neighbors ci_type ci_id direction rel_type = do
    oid ← parse_object_id mongo cfg ci_id
    (λ s.
        if has_direction direction
        then (
          ok (
              map (serialize_edge (spelling mongo cfg)) (
                mongo.find (λ e. beside direction (ci_type, oid) e && asks rel_type e.rel_type)
                  s.edges)),
          s,
        )
        else (err Error.bad_request, s))

  unfoldable pub node_ref : Node → NodeRef
  node_ref (t, i) = record { type = t; id = mongo.id_text i }

  unfoldable pub analysis : Direction → String → String → ℕ → Store mongo → Analysis
  analysis dir ci_type ci_id oid s =
      let found = bfs mongo s.edges dir true cfg.graph_max_depth (ci_type, oid) in
      record {
        root = record { type = ci_type; id = ci_id };
        nodes = map node_ref found.nodes;
        edges = map (serialize_edge (spelling mongo cfg)) found.edges;
        truncated = is_truncated mongo s.edges dir true found;
        max_depth = cfg.graph_max_depth;
      }

  unfoldable pub dependencies : String → String → Exec (Store mongo) Analysis
  dependencies ci_type ci_id = do
    oid ← parse_object_id mongo cfg ci_id
    (λ s. (ok (analysis Direction.outward ci_type ci_id oid s), s))

  unfoldable pub impact : String → String → Exec (Store mongo) Analysis
  impact ci_type ci_id = do
    oid ← parse_object_id mongo cfg ci_id
    (λ s. (ok (analysis Direction.inward ci_type ci_id oid s), s))

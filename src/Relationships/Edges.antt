-- ===== src/Relationships/Edges.antt =====
-- RelationshipRepository of cmdboss/graph.py: the relationships, their integrity, and the guard of
-- the CIs' delete. Metrics are left out.
pub mod Requests
pub mod Removal
pub mod Dag
pub mod Integrity
use Prim.Native.String.{◌++◌ as text_append}
use cmdboss.Prelude.{
  ℕ, zero, suc, ◌+◌, ◌-◌, String, Bool, true, false, ◌&&◌, ◌||◌, not, Option, none, some, List, [],
  ◌∷◌, ◌++◌, map, any, min, max, length, Dict, str_eq, ◌==◌, ltb, leb, if◌then◌else◌,
}
use cmdboss.Text.{lower}
use cmdboss.Value.{Value}
use cmdboss.Errors.{Error}
use cmdboss.Errors.Result.{
  Result, ok, err, Exec, pure, raise, or_raise, ◌>>=◌, ◌>>◌, transaction, guard,
}
use cmdboss.Documents.{CiDoc, EdgeDoc, EdgeMeta, Edge, NodeRef, Payload, Event, serialize_edge}
use cmdboss.Driver.{Driver}
use cmdboss.Audit.{Action, Entry}
use cmdboss.Store.{Store, Config, Readings, Caller, spelling, record_audit, event_of, emit}
use cmdboss.Repository.{parse_object_id}
use cmdboss.Repository.Guard.{Guard}
use cmdboss.Relationships.{
  Cardinality, RelationshipTypeDefinition, allows, RelTypeDoc, RelRegistry, get_rel_type,
  valid_rel_name, valid_type_tokens,
}
use cmdboss.Relationships.Bfs.{
  Node, Direction, outward, inward, same_node, Search, bfs, is_truncated,
}

-- what `create_edge` is given
pub record NewEdge : Type 0 where
  pub rel_type : String
  pub from_type : String
  pub from_id : String
  pub to_type : String
  pub to_id : String
  pub attributes : Dict Value
  pub provenance : Option (String × ℕ)

-- {"rel_type": rt, "from_type": ft, "from_id": fid}
unfoldable pub from_source : String → Node → EdgeDoc → Bool
from_source rt n e = str_eq e.rel_type rt && same_node (e.from_type, e.from_id) n

-- {"rel_type": rt, "to_type": tt, "to_id": tid}
unfoldable pub to_target : String → Node → EdgeDoc → Bool
to_target rt n e = str_eq e.rel_type rt && same_node (e.to_type, e.to_id) n

unfoldable pub one_target : Cardinality → Bool
one_target Cardinality.one_to_one = true
one_target Cardinality.many_to_one = true
one_target _ = false

unfoldable pub one_source : Cardinality → Bool
one_source Cardinality.one_to_one = true
one_source Cardinality.one_to_many = true
one_source _ = false

-- the unique indexes of the collection: `_id` and `uq_edge`
unfoldable pub same_edge : EdgeDoc → EdgeDoc → Bool
same_edge a b =
    a.id == b.id
    || (str_eq a.rel_type b.rel_type
        && same_node (a.from_type, a.from_id) (b.from_type, b.from_id)
        && same_node (a.to_type, a.to_id) (b.to_type, b.to_id))

-- {"$or": [{"from_type": …, "from_id": …}, {"to_type": …, "to_id": …}]}
unfoldable pub incident : Node → EdgeDoc → Bool
incident n e = same_node (e.from_type, e.from_id) n || same_node (e.to_type, e.to_id) n

abbrev pub new_edge :
    Readings → RelationshipTypeDefinition → Node → Node → NewEdge → String → EdgeDoc
new_edge r d (ft, fid) (tt, tid) x actor = record {
  id = r.oid;
  rel_type = d.name;
  dependency = d.dependency;
  from_type = ft;
  from_id = fid;
  to_type = tt;
  to_id = tid;
  attributes = x.attributes;
  meta = record {
    revision = 1;
    created_at = r.now;
    updated_at = r.now;
    created_by = actor;
    updated_by = actor;
    provenance = x.provenance;
  };
}

module _ (mongo : Driver) (cfg : Config mongo) where
  -- `_ci_exists`
  unfoldable pub ci_exists : Node → Store mongo → Bool
  ci_exists (ci_type, oid) s = elim (mongo.find_one (λ d. d.id == oid) (s.cis ci_type)) [
    | none ↦ false
    | some _ ↦ true
  ]

  -- `_check_cardinality`
  unfoldable pub check_cardinality :
      RelationshipTypeDefinition → Node → Node → Exec (Store mongo) (Unit {0})
  check_cardinality d f t s =
      if one_target d.cardinality && ltb 0 (mongo.count_documents (from_source d.name f) s.edges)
      then (err (Error.conflict_as "cardinality_violation"), s)
      else if one_source d.cardinality && ltb 0 (mongo.count_documents (to_target d.name t) s.edges)
      then (err (Error.conflict_as "cardinality_violation"), s)
      else (ok tt, s)

  -- `_check_no_cycle`
  unfoldable pub check_no_cycle : Node → Node → Exec (Store mongo) (Unit {0})
  check_no_cycle f t s =
      if any (same_node f) (bfs mongo s.edges Direction.outward true cfg.graph_max_depth t).nodes
      then (err (Error.conflict_as "dependency_cycle"), s)
      else (ok tt, s)

  unfoldable pub check_exists : Node → Exec (Store mongo) (Unit {0})
  check_exists n s = if ci_exists n s then (ok tt, s) else (err Error.not_found, s)

  -- `if rel_def.dependency`
  unfoldable pub check_dependency :
      RelationshipTypeDefinition → Node → Node → Exec (Store mongo) (Unit {0})
  check_dependency d f t s = if d.dependency then check_no_cycle f t s else (ok tt, s)

  -- `self._edges.insert_one(edge)`
  unfoldable pub insert_edge : EdgeDoc → Exec (Store mongo) (Unit {0})
  insert_edge e s = elim (mongo.insert_one same_edge e s.edges) [
    | none ↦ (err Error.duplicate_key, s)
    | some c ↦ (ok tt, record s { edges = c })
  ]

  edge_before : Action → Edge → Option Payload
  edge_before Action.delete out = some (Payload.edge out)
  edge_before _ out = none

  edge_after : Action → Edge → Option Payload
  edge_after Action.create out = some (Payload.edge out)
  edge_after _ out = none

  -- the record of a change of one edge in the log, and its event
  unfoldable pub edge_entry : Action → EdgeDoc → Caller → Entry
  unfolding edge_before edge_after
  edge_entry action e caller =
      let out = serialize_edge (spelling mongo cfg) e in
      record {
        action = action;
        entity_type = text_append "rel:" e.rel_type;
        entity_id = out.id;
        actor = caller.actor;
        before = edge_before action out;
        after = edge_after action out;
        schema_version = none;
        revision = none;
        request_id = caller.request_id;
      }

  unfoldable pub edge_event : Readings → String → EdgeDoc → Caller → Event
  edge_event r type e caller =
      let out = serialize_edge (spelling mongo cfg) e in
      event_of mongo r type (text_append "rel:" e.rel_type) out.id caller.actor (Payload.edge out)

  unfoldable pub report_edge :
      Readings → Action → String → EdgeDoc → Caller → Exec (Store mongo) (Unit {0})
  report_edge r action event e caller = do
    record_audit mongo cfg r (edge_entry action e caller)
    emit mongo r (edge_event r event e caller)

  -- the body of the transaction of `create_edge`
  unfoldable pub create_edge_body : Readings → EdgeDoc → Caller → Exec (Store mongo) Edge
  create_edge_body r e caller = do
    insert_edge e
    report_edge r Action.create "relationship.created" e caller
    pure (serialize_edge (spelling mongo cfg) e)

  as_duplicate : Error → Error
  as_duplicate Error.duplicate_key = Error.conflict_as "duplicate_edge"
  as_duplicate x = x

  -- `except DuplicateKeyError`
  unfoldable pub no_duplicate : Result Edge × Store mongo → Result Edge × Store mongo
  unfolding as_duplicate
  no_duplicate (ok e, s) = (ok e, s)
  no_duplicate (err x, s) = (err (as_duplicate x), s)

  unfoldable pub write_edge : Readings → EdgeDoc → Caller → Exec (Store mongo) Edge
  write_edge r e caller s =
      no_duplicate (transaction cfg.txn_enabled (create_edge_body r e caller) s)

  -- `create_edge` between two nodes, from the test for a self-reference on
  unfoldable pub connect :
      Readings
      → RelationshipTypeDefinition
      → Node
      → Node
      → NewEdge
      → Caller
      → Exec (Store mongo) Edge
  connect r d f t x caller = do
    guard (same_node f t && not d.allow_self) Error.bad_request
    check_exists f
    check_exists t
    check_cardinality d f t
    check_dependency d f t
    write_edge r (new_edge r d f t x caller.actor) caller

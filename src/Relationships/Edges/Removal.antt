-- ===== src/Relationships/Edges/Removal.antt =====
-- The reads of one relationship, its deletion, and the guard of the CIs' delete, in cmdboss/graph.py.
pub mod Detach
use cmdboss.Prelude.{
  ℕ, suc, String, Option, none, some, List, [], ◌∷◌, length, Bool, false, ◌&&◌, str_eq, ◌==◌,
  if◌then◌else◌,
}
use cmdboss.Value.{Number}
use cmdboss.Errors.{Error}
use cmdboss.Errors.Result.{ok, err, Exec, pure, or_raise, ◌>>=◌, ◌>>◌, transaction}
use cmdboss.Documents.{EdgeDoc, Edge, serialize_edge}
use cmdboss.Driver.{Driver}
use cmdboss.Audit.{Action}
use cmdboss.Store.{Store, Config, Readings, Caller, spelling}
use cmdboss.Repository.{is_revision, parse_object_id}
use cmdboss.Repository.Guard.{Guard}
use cmdboss.Relationships.Bfs.{Node}
use cmdboss.Relationships.Edges.{incident, report_edge}

-- (rel_type, from_id, to_id)
abbrev pub EdgeKey : Type 0
EdgeKey = String × String × String

unfoldable pub same_edge_key : EdgeKey → EdgeKey → Bool
same_edge_key (a, b, c) (x, y, z) = str_eq a x && str_eq b y && str_eq c z

-- out[key] = id
unfoldable pub put_key : EdgeKey → String → List (EdgeKey × String) → List (EdgeKey × String)
unfolding same_edge_key
put_key k id [] = (k, id) ∷ []
put_key k id ((j, x) ∷ out) =
    let rest = put_key k id out in if same_edge_key j k then (j, id) ∷ out else (j, x) ∷ rest

module _ (mongo : Driver) (cfg : Config mongo) where
  -- `get_edge`
  unfoldable pub get_edge : String → Exec (Store mongo) Edge
  get_edge edge_id = do
    oid ← parse_object_id mongo cfg edge_id
    e ← (λ s. or_raise (mongo.find_one (λ d. d.id == oid) s.edges) Error.not_found s)
    pure (serialize_edge (spelling mongo cfg) e)

  -- the revision that `delete_edge` may be given
  unfoldable pub check_edge_revision : Option Number → EdgeDoc → Exec (Store mongo) (Unit {0})
  check_edge_revision none e s = (ok tt, s)
  check_edge_revision (some n) e s =
      if is_revision n e.meta.revision
      then (ok tt, s)
      else (err (Error.precondition_failed (some n) e.meta.revision), s)

  unfoldable pub remove_edge : ℕ → Exec (Store mongo) (Unit {0})
  remove_edge oid s = (ok tt, record s { edges = mongo.delete_one (λ d. d.id == oid) s.edges })

  unfoldable pub delete_edge :
      Readings → String → Option Number → Caller → Exec (Store mongo) (Unit {0})
  delete_edge r edge_id expected caller = do
    oid ← parse_object_id mongo cfg edge_id
    transaction cfg.txn_enabled (do
      e ← (λ s. or_raise (mongo.find_one (λ d. d.id == oid) s.edges) Error.not_found s)
      check_edge_revision expected e
      remove_edge oid
      report_edge mongo cfg r Action.delete "relationship.deleted" e caller)

  -- `count_edges`, with the ObjectId that the CIs' delete gives it
  unfoldable pub count_edges : String → ℕ → Store mongo → ℕ
  count_edges ci_type oid s = mongo.count_documents (incident (ci_type, oid)) s.edges

  -- the loop of `detach_ci`, each pass with readings of its own
  unfoldable pub report_all : (ℕ → Readings) → List EdgeDoc → Caller → Exec (Store mongo) (Unit {0})
  report_all r [] caller s = (ok tt, s)
  report_all r (e ∷ es) caller s =
      (report_edge mongo cfg (r 0) Action.delete "relationship.deleted" e caller
          >> report_all (λ n. r (suc n)) es caller)
        s

  detached_edges : (ℕ → Readings) → Node → List EdgeDoc → Caller → Exec (Store mongo) ℕ
  detached_edges r n [] caller s = (ok 0, s)
  detached_edges r n (e ∷ es) caller s =
      (report_all r (e ∷ es) caller >> pure (length (e ∷ es)))
        (record s { edges = mongo.delete_many (incident n) s.edges })

  unfoldable pub detach_ci : (ℕ → Readings) → String → ℕ → Caller → Exec (Store mongo) ℕ
  unfolding detached_edges
  detach_ci r ci_type oid caller s =
      detached_edges r (ci_type, oid) (mongo.find (incident (ci_type, oid)) s.edges) caller s

  -- the guard that CIRepository is given
  unfoldable pub relationship_guard : (ℕ → Readings) → Guard mongo
  relationship_guard r = record { count_edges = count_edges; detach_ci = detach_ci r }

  -- {"_meta.source": source}
  unfoldable pub edge_of_source : String → EdgeDoc → Bool
  edge_of_source source e = elim e.meta.provenance [ none ↦ false | some p ↦ str_eq p.0 source ]

  -- the loop of `iter_source_edges`, whose dict is keyed by type and ends: a later edge of the same
  -- key replaces the earlier one
  unfoldable pub collect_edges : List EdgeDoc → List (EdgeKey × String) → List (EdgeKey × String)
  collect_edges [] out = out
  collect_edges (e ∷ es) out = collect_edges es (
      put_key (e.rel_type, mongo.id_text e.from_id, mongo.id_text e.to_id) (mongo.id_text e.id) out)

  unfoldable pub iter_source_edges : String → Store mongo → List (EdgeKey × String)
  iter_source_edges source s = collect_edges (mongo.find (edge_of_source source) s.edges) []

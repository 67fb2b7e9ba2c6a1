-- ===== src/Tests/Graph.antt =====
-- A small graph of relationships: 1 depends on 2, 2 on 3.
use cmdboss.Prelude.{
  ℕ, ◌≡◌, ◌≢◌, ◌⊎◌, refl, ap, true, false, none, List, [], ◌∷◌, first, select, any, Memᴰ, arith,
}
use mathlib.Core.List.Memᴰ
use cmdboss.Documents.{CiDoc, EdgeDoc, Edge, serialize_edge}
use cmdboss.Errors.Result.{Result, ok, transaction}
use cmdboss.Driver.InMemory.{in_memory}
use cmdboss.Store.{Store, record_audit, emit}
use cmdboss.Relationships.{Cardinality, RelationshipTypeDefinition}
use cmdboss.Relationships.Bfs.{
  Node, Direction, same_node, near, far, touches, visit, scan, expand, rounds, start, is_truncated,
  bfs,
}
use cmdboss.Relationships.Bfs.Reach.{Reach, Step, here, step, bfs_sound, bfs_complete}
use cmdboss.Relationships.Edges.{
  NewEdge, new_edge, from_source, to_target, one_target, one_source, same_edge, ci_exists,
  check_exists, check_cardinality, check_no_cycle, check_dependency, insert_edge, report_edge,
  edge_entry, edge_event, create_edge_body, no_duplicate, write_edge, connect,
}
use cmdboss.Relationships.Edges.Dag.{IsAcyclic}
use cmdboss.Relationships.Edges.Integrity.{connect_acyclic, connect_cardinality}
use cmdboss.Relationships.Queries.{analysis, node_ref}
use cmdboss.Relationships.Queries.Duality.{impact_dual}
use cmdboss.Relationships.Edges.{incident}
use cmdboss.Relationships.Edges.Removal.{count_edges, report_all, detach_ci}
use cmdboss.Relationships.Edges.Removal.Detach.{detach_ci-count_edges}
use cmdboss.Audit
use cmdboss.Outbox
use cmdboss.Tests.World.{cfg, empty_store, at_time, ann, host}

abbrev depends_on : RelationshipTypeDefinition
depends_on = record {
  name = "depends_on";
  description = none;
  from_types = "*" ∷ [];
  to_types = "*" ∷ [];
  cardinality = Cardinality.many_to_one;
  dependency = true;
  inverse_name = none;
  allow_self = false;
}

abbrev node : ℕ → Node
node n = ("server", n)

abbrev plain : NewEdge
plain = record {
  rel_type = "depends_on";
  from_type = "server";
  from_id = "1";
  to_type = "server";
  to_id = "2";
  attributes = [];
  provenance = none;
}

abbrev edge : ℕ → ℕ → ℕ → EdgeDoc
edge id a b = new_edge (at_time id) depends_on (node a) (node b) plain "ann"

abbrev chain : List EdgeDoc
chain = edge 11 1 2 ∷ edge 12 2 3 ∷ []

listed : Memᴰ (node 3) (bfs in_memory chain Direction.outward true 8 (node 1)).nodes
unfolding bfs rounds start expand scan visit touches far near same_node select any
listed = Memᴰ.tail (Memᴰ.head refl)

bfs_sound_example : Reach chain Direction.outward true (node 1) (node 3)
bfs_sound_example = bfs_sound in_memory chain Direction.outward true (node 1) 8 (node 3) listed

whole :
    is_truncated in_memory chain Direction.outward true
      (bfs in_memory chain Direction.outward true 8 (node 1))
    ≡ false
unfolding bfs rounds start expand scan visit touches far near same_node select any is_truncated
whole = refl

path : Reach chain Direction.outward true (node 1) (node 2)
unfolding Step near far
path = step here (edge 11 1 2, Memᴰ.head refl, refl, refl, refl)

bfs_complete_example :
    (node 2 ≡ node 1) ⊎ Memᴰ (node 2) (bfs in_memory chain Direction.outward true 8 (node 1)).nodes
bfs_complete_example =
    bfs_complete in_memory chain Direction.outward true (node 1) 8 (node 2) whole path

-- a database with two CIs and no relationship
abbrev ci : ℕ → CiDoc
ci n = record {
  id = n;
  fields = host "a";
  meta = record {
    type = "server";
    revision = 1;
    schema_version = 1;
    created_at = 0;
    updated_at = 0;
    created_by = "ann";
    updated_by = "ann";
    provenance = none;
  };
}

abbrev two_cis : Store in_memory
two_cis = record empty_store { cis = λ t. ci 1 ∷ ci 2 ∷ [] }

abbrev connected : Result Edge × Store in_memory
connected = connect in_memory cfg (at_time 11) depends_on (node 1) (node 2) plain ann two_cis

connected_ok : connected ≡ (
  ok (serialize_edge (record { id_text = in_memory.id_text; iso = cfg.iso }) (edge 11 1 2)),
  connected.1,
)
unfolding connect check_exists ci_exists check_cardinality check_dependency check_no_cycle
    write_edge create_edge_body insert_edge report_edge edge_entry edge_event no_duplicate
    record_audit emit Audit.append Audit.entry_doc Audit.changes Outbox.add transaction first select
    any same_node bfs rounds start expand scan visit touches far near from_source to_target
    one_target one_source same_edge serialize_edge
connected_ok = refl

apart : node 1 ≢ node 2
apart h = let k = ap (λ n. n.1) h in omega arith

no_dependency : IsAcyclic (in_memory.docs two_cis.edges)
unfolding IsAcyclic Step
no_dependency u v ((e, m, from, to, dep), p) = Memᴰ.not-nil m

untruncated :
    is_truncated in_memory two_cis.edges Direction.outward true
      (bfs in_memory two_cis.edges Direction.outward true cfg.graph_max_depth (node 2))
    ≡ false
unfolding bfs rounds start expand scan visit touches far near same_node select any is_truncated
untruncated = refl

connect_acyclic_example : IsAcyclic (in_memory.docs connected.1.edges)
connect_acyclic_example =
    connect_acyclic in_memory cfg (at_time 11) depends_on (node 1) (node 2) plain ann two_cis
      connected.1
      (serialize_edge (record { id_text = in_memory.id_text; iso = cfg.iso }) (edge 11 1 2)) apart
      untruncated no_dependency connected_ok

connect_cardinality_example :
    ((one_target Cardinality.many_to_one ≡ false)
      ⊎ (in_memory.count_documents (from_source "depends_on" (node 1)) connected.1.edges ≡ 1))
    × ((one_source Cardinality.many_to_one ≡ false)
        ⊎ (in_memory.count_documents (to_target "depends_on" (node 2)) connected.1.edges ≡ 1))
connect_cardinality_example =
    connect_cardinality in_memory cfg (at_time 11) depends_on (node 1) (node 2) plain ann two_cis
      connected.1
      (serialize_edge (record { id_text = in_memory.id_text; iso = cfg.iso }) (edge 11 1 2))
      connected_ok

abbrev with_chain : Store in_memory
with_chain = record empty_store { edges = chain }

whole_impact :
    (analysis in_memory cfg Direction.inward "server" (in_memory.id_text 3) 3 with_chain).truncated
    ≡ false
unfolding analysis bfs rounds start expand scan visit touches far near same_node select any
    is_truncated
whole_impact = refl

impact_dual_example :
    (node 1 ≡ node 3)
    ⊎ Memᴰ
        (node_ref in_memory cfg (node 1))
        (analysis in_memory cfg Direction.inward "server" (in_memory.id_text 3) 3 with_chain).nodes
impact_dual_example = impact_dual in_memory cfg with_chain (node 1) (node 3) listed whole_impact

abbrev detached : Result ℕ × Store in_memory
detached = detach_ci in_memory cfg (λ n. at_time n) "server" 2 ann with_chain

detached_two : detached ≡ (ok 2, detached.1)
unfolding detach_ci report_all incident same_node select report_edge edge_entry edge_event
    record_audit emit Audit.append Audit.entry_doc Audit.changes Outbox.add any serialize_edge
detached_two = refl

detach_ci-count_edges_example :
    (2 ≡ count_edges in_memory cfg "server" 2 with_chain)
    × (count_edges in_memory cfg "server" 2 detached.1 ≡ 0)
    × (detached.1.cis ≡ with_chain.cis)
detach_ci-count_edges_example =
    detach_ci-count_edges in_memory cfg (λ n. at_time n) "server" 2 ann with_chain detached.1 2
      detached_two

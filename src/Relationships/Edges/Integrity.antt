-- ===== src/Relationships/Edges/Integrity.antt =====
-- The integrity that `create_edge` keeps: dependencies stay without cycles, and the cardinality of a
-- type bounds its relationships.
use cmdboss.Prelude.{
  length-select_append, ◌≡◌, ◌≢◌, ◌⊎◌, refl, sym, ap, ◌∙◌, subst, String, Bool, true, false, ◌&&◌,
  not, [], ◌∷◌, ◌++◌, any, inl, inr, Bool-cases, Option-cases, arith, select, length, eq_iff,
}
use cmdboss.Errors.{Error}
use cmdboss.Errors.Result.{Result, ok, err, guard, transaction}
use cmdboss.Errors.Result.Runs.{then_ok, transaction_ok}
use cmdboss.Documents.{EdgeDoc, Edge, serialize_edge}
use cmdboss.Driver.{Driver}
use cmdboss.Driver.Laws.{insert_docs}
use cmdboss.Audit.{Action}
use cmdboss.Store.{Store, Config, Readings, Caller, record_audit, spelling}
use cmdboss.Store.Frame.{record_audit_ok, emit_ok}
use cmdboss.Relationships.{RelationshipTypeDefinition}
use cmdboss.Relationships.Bfs.{Node, Direction, same_node, near, far, bfs, is_truncated}
use cmdboss.Relationships.Bfs.Reach.{bfs_complete}
use cmdboss.Relationships.Bfs.Scan.{same_node_iff, any-same_node}
use cmdboss.Relationships.Edges.{
  NewEdge, new_edge, from_source, to_target, one_target, one_source, same_edge, check_exists,
  check_cardinality, check_no_cycle, check_dependency, insert_edge, report_edge, edge_entry,
  edge_event, create_edge_body, no_duplicate, write_edge, connect,
}
use cmdboss.Relationships.Edges.Dag.{IsAcyclic, IsAcyclic-concat, IsAcyclic-other}

module _ (mongo : Driver) (cfg : Config mongo) where
  guard_ok :
      (b : Bool) (e : Error) (s s' : Store mongo) (u : Unit {0})
      → guard b e s ≡ (ok u, s')
      → (b ≡ false) × (s' ≡ s)
  guard_ok true e s s' u h = cc
  guard_ok false e s s' u h = (refl, cc)

  check_exists_ok :
      (n : Node) (s s' : Store mongo) (u : Unit {0})
      → check_exists mongo cfg n s ≡ (ok u, s')
      → s' ≡ s
  unfolding check_exists
  check_exists_ok n s s' u h = ground arith

  check_cardinality_ok :
      (d : RelationshipTypeDefinition) (f t : Node) (s s' : Store mongo) (u : Unit {0})
      → check_cardinality mongo cfg d f t s ≡ (ok u, s')
      → (s' ≡ s)
        × (one_target d.cardinality ≡ true
            → mongo.count_documents (from_source d.name f) s.edges ≡ 0)
        × (one_source d.cardinality ≡ true → mongo.count_documents (to_target d.name t) s.edges ≡ 0)
  unfolding check_cardinality
  check_cardinality_ok d f t s s' u h = (ground arith, λ k. ground arith, λ k. ground arith)

  check_dependency_ok :
      (d : RelationshipTypeDefinition) (f t : Node) (s s' : Store mongo) (u : Unit {0})
      → check_dependency mongo cfg d f t s ≡ (ok u, s')
      → (s' ≡ s)
        × (d.dependency ≡ true
            → any
                (same_node f)
                (bfs mongo s.edges Direction.outward true cfg.graph_max_depth t).nodes
              ≡ false)
  unfolding check_dependency check_no_cycle
  check_dependency_ok d f t s s' u h = (ground arith, λ k. ground arith)

  insert_edge_ok :
      (e : EdgeDoc) (s s' : Store mongo) (u : Unit {0})
      → insert_edge mongo cfg e s ≡ (ok u, s')
      → (any (same_edge e) (mongo.docs s.edges) ≡ false)
        × (mongo.docs s'.edges ≡ mongo.docs s.edges ++ e ∷ [])
        × (s'.cis ≡ s.cis)
  unfolding insert_edge
  insert_edge_ok e s s' u h = elim (Option-cases (mongo.insert_one same_edge e s.edges)) [
    | inl k ↦ cc (rw (insert_edge, k) at h)
    | inr (c, k) ↦
        let put = ap (λ y. y.1) (rw (insert_edge, k) at h) in
        let (free, appended) = insert_docs mongo same_edge e s.edges c k in
        rw (sym put) (free, appended, refl)
  ]

  no_duplicate_ok :
      (r : Result Edge × Store mongo) (out : Edge) (s' : Store mongo)
      → no_duplicate mongo cfg r ≡ (ok out, s')
      → r ≡ (ok out, s')
  unfolding no_duplicate
  no_duplicate_ok (ok e, s) out s' h = h
  no_duplicate_ok (err x, s) out s' h = cc

  pub report_edge_ok :
      (r : Readings) (action : Action) (event : String) (e : EdgeDoc) (caller : Caller)
      (s s' : Store mongo) (u : Unit {0})
      → report_edge mongo cfg r action event e caller s ≡ (ok u, s')
      → (s'.edges ≡ s.edges) × (s'.cis ≡ s.cis)
  unfolding report_edge
  report_edge_ok r action event e caller s s' u h =
      let (t, h1, k1) =
        then_ok (record_audit mongo cfg r (edge_entry mongo cfg action e caller)) _ s s' u h in
      let (a, b, c, d) =
        record_audit_ok mongo cfg r (edge_entry mongo cfg action e caller) s t tt h1 in
      let (a', b', c', d') = emit_ok mongo r (edge_event mongo cfg r event e caller) t s' u k1 in
      (b' ∙ b, a' ∙ a)

  -- the collection that a `create_edge` leaves
  write_edge_ok :
      (r : Readings) (e : EdgeDoc) (caller : Caller) (s s' : Store mongo) (out : Edge)
      → write_edge mongo cfg r e caller s ≡ (ok out, s')
      → (out ≡ serialize_edge (spelling mongo cfg) e)
        × (any (same_edge e) (mongo.docs s.edges) ≡ false)
        × (mongo.docs s'.edges ≡ mongo.docs s.edges ++ e ∷ [])
        × (s'.cis ≡ s.cis)
  unfolding write_edge create_edge_body
  write_edge_ok r e caller s s' out h =
      let run = transaction_ok cfg.txn_enabled (create_edge_body mongo cfg r e caller) s s' out (
        no_duplicate_ok (transaction cfg.txn_enabled (create_edge_body mongo cfg r e caller) s) out
          s' h) in
      let (s1, h1, k1) = then_ok (insert_edge mongo cfg e) _ s s' out run in
      let (s2, h2, k2) =
        then_ok (report_edge mongo cfg r Action.create "relationship.created" e caller) _ s1 s' out
          k1 in
      let (free, appended, cis) = insert_edge_ok e s s1 tt h1 in
      let (kept, cis') =
        report_edge_ok r Action.create "relationship.created" e caller s1 s2 tt h2 in
      let last : s2 ≡ s' = ap (λ y. y.1) k2 in
      let returned : serialize_edge (spelling mongo cfg) e ≡ out = cc in
      (sym returned, free, rw (sym last, kept) appended, rw (sym last) (cis' ∙ cis))

  -- a `create_edge` between two nodes that returns
  connect_ok :
      (r : Readings) (d : RelationshipTypeDefinition) (f t : Node) (x : NewEdge) (caller : Caller)
      (s s' : Store mongo) (out : Edge)
      → connect mongo cfg r d f t x caller s ≡ (ok out, s')
      → (mongo.docs s'.edges ≡ mongo.docs s.edges ++ new_edge r d f t x caller.actor ∷ [])
        × (same_node f t && not d.allow_self ≡ false)
        × (one_target d.cardinality ≡ true
            → mongo.count_documents (from_source d.name f) s.edges ≡ 0)
        × (one_source d.cardinality ≡ true → mongo.count_documents (to_target d.name t) s.edges ≡ 0)
        × (d.dependency ≡ true
            → any
                (same_node f)
                (bfs mongo s.edges Direction.outward true cfg.graph_max_depth t).nodes
              ≡ false)
  unfolding connect
  connect_ok r d f t x caller s s' out h =
      let (s1, h1, k1) =
        then_ok (guard (same_node f t && not d.allow_self) Error.bad_request) _ s s' out h in
      let (s2, h2, k2) = then_ok (check_exists mongo cfg f) _ s1 s' out k1 in
      let (s3, h3, k3) = then_ok (check_exists mongo cfg t) _ s2 s' out k2 in
      let (s4, h4, k4) = then_ok (check_cardinality mongo cfg d f t) _ s3 s' out k3 in
      let (s5, h5, k5) = then_ok (check_dependency mongo cfg d f t) _ s4 s' out k4 in
      let (other, e1) = guard_ok (same_node f t && not d.allow_self) Error.bad_request s s1 tt h1 in
      let e3 : s3 ≡ s = check_exists_ok t s2 s3 tt h3 ∙ check_exists_ok f s1 s2 tt h2 ∙ e1 in
      let (e4, targets, sources) = check_cardinality_ok d f t s3 s4 tt h4 in
      let (e5, open_end) = check_dependency_ok d f t s4 s5 tt h5 in
      let (returned, free, appended, cis) =
        write_edge_ok r (new_edge r d f t x caller.actor) caller s5 s' out k5 in
      let e4' : s4 ≡ s = e4 ∙ e3 in
      let e5' : s5 ≡ s = e5 ∙ e4' in
      (
        subst
            (λ u. mongo.docs s'.edges ≡ mongo.docs u.edges ++ new_edge r d f t x caller.actor ∷ [])
            e5' appended,
        other,
        λ k. subst (λ u. mongo.count_documents (from_source d.name f) u.edges ≡ 0) e3 (targets k),
        λ k. subst (λ u. mongo.count_documents (to_target d.name t) u.edges ≡ 0) e3 (sources k),
        λ k.
            subst
              (λ u.
                any (same_node f)
                  (bfs mongo u.edges Direction.outward true cfg.graph_max_depth t).nodes
                ≡ false)
              e4' (open_end k),
      )

  -- A relationship that `create_edge` has made between two different nodes leaves the dependencies
  -- without cycles, where they were and the traversal of the check was not cut off at its depth.
  pub connect_acyclic :
      (r : Readings) (d : RelationshipTypeDefinition) (f t : Node) (x : NewEdge) (caller : Caller)
      (s s' : Store mongo) (out : Edge)
      → f ≢ t
      → is_truncated mongo s.edges Direction.outward true
          (bfs mongo s.edges Direction.outward true cfg.graph_max_depth t)
        ≡ false
      → IsAcyclic (mongo.docs s.edges)
      → connect mongo cfg r d f t x caller s ≡ (ok out, s')
      → IsAcyclic (mongo.docs s'.edges)
  unfolding near far
  connect_acyclic r d f t x caller s s' out apart whole before h =
      let (appended, other, targets, sources, open_end) = connect_ok r d f t x caller s s' out h in
      let e = new_edge r d f t x caller.actor in
      elim (Bool-cases d.dependency) [
        | inr k ↦ rw appended (IsAcyclic-other (mongo.docs s.edges) e k before)
        | inl k ↦ rw appended (
            IsAcyclic-concat (mongo.docs s.edges) e before (λ p.
              elim (bfs_complete mongo s.edges Direction.outward true t cfg.graph_max_depth f whole
                p) [
                  | inl k' ↦ apart k'
                  | inr m ↦
                      let q =
                        (any-same_node f
                            (bfs mongo s.edges Direction.outward true cfg.graph_max_depth
                              t).nodes).1
                          m in
                      let q' = open_end k in cc
                ]))
      ]

  one_more :
      (q : EdgeDoc → Bool) (e : EdgeDoc) (s s' : Store mongo)
      → mongo.docs s'.edges ≡ mongo.docs s.edges ++ e ∷ []
      → q e ≡ true
      → mongo.count_documents q s.edges ≡ 0
      → mongo.count_documents q s'.edges ≡ 1
  unfolding select
  one_more q e s s' appended hit none_yet =
      let before : length (select q (mongo.docs s.edges)) ≡ 0 =
        sym (mongo.count_lem q s.edges) ∙ none_yet in
      rw
        (
          mongo.count_lem q s'.edges,
          appended,
          length-select_append q (mongo.docs s.edges) (e ∷ []),
          before,
          hit,
        )
        refl

  -- A relationship that `create_edge` has made is the only one of its type at its source, or at its
  -- target, where the cardinality of the type says so.
  pub connect_cardinality :
      (r : Readings) (d : RelationshipTypeDefinition) (f t : Node) (x : NewEdge) (caller : Caller)
      (s s' : Store mongo) (out : Edge)
      → connect mongo cfg r d f t x caller s ≡ (ok out, s')
      → ((one_target d.cardinality ≡ false)
          ⊎ (mongo.count_documents (from_source d.name f) s'.edges ≡ 1))
        × ((one_source d.cardinality ≡ false)
            ⊎ (mongo.count_documents (to_target d.name t) s'.edges ≡ 1))
  unfolding from_source to_target
  connect_cardinality r d f t x caller s s' out h =
      let (appended, other, targets, sources, open_end) = connect_ok r d f t x caller s s' out h in
      let e = new_edge r d f t x caller.actor in
      (
        elim (Bool-cases (one_target d.cardinality)) [
          | inr k ↦ inl k
          | inl k ↦ inr (
              one_more (from_source d.name f) e s s' appended
                (ground (arith, eq_iff d.name d.name, same_node_iff f f)) (targets k))
        ],
        elim (Bool-cases (one_source d.cardinality)) [
          | inr k ↦ inl k
          | inl k ↦ inr (
              one_more (to_target d.name t) e s s' appended
                (ground (arith, eq_iff d.name d.name, same_node_iff t t)) (sources k))
        ],
      )

-- ===== src/Relationships/Edges/Removal/Detach.antt =====
-- What the detachment of a CI leaves of its relationships.
use cmdboss.Prelude.{
  ℕ, suc, ◌≡◌, refl, sym, ap, ◌∙◌, String, Bool, not, List, [], ◌∷◌, length, select, arith,
}
use cmdboss.Errors.Result.{ok}
use cmdboss.Errors.Result.Runs.{then_ok}
use cmdboss.Documents.{EdgeDoc}
use cmdboss.Driver.{Driver}
use cmdboss.Audit.{Action}
use cmdboss.Store.{Store, Config, Readings, Caller}
use cmdboss.Relationships.Bfs.{Node}
use cmdboss.Relationships.Edges.{incident, report_edge}
use cmdboss.Relationships.Edges.Integrity.{report_edge_ok}
use cmdboss.Relationships.Edges.Removal.{count_edges, report_all, detached_edges, detach_ci}

select-select-not :
    (q : EdgeDoc → Bool) (xs : List EdgeDoc) → length (select q (select (λ e. not (q e)) xs)) ≡ 0
unfolding select
select-select-not q [] = refl
select-select-not q (x ∷ xs) = ground (arith, select-select-not q xs)

module _ (mongo : Driver) (cfg : Config mongo) where
  report_all_ok :
      (r : ℕ → Readings) (es : List EdgeDoc) (caller : Caller) (s s' : Store mongo) (u : Unit {0})
      → report_all mongo cfg r es caller s ≡ (ok u, s')
      → (s'.edges ≡ s.edges) × (s'.cis ≡ s.cis)
  unfolding report_all
  report_all_ok r [] caller s s' u h = (cc, cc)
  report_all_ok r (e ∷ es) caller s s' u h =
      let (t, h1, k1) =
        then_ok (report_edge mongo cfg (r 0) Action.delete "relationship.deleted" e caller) _ s s' u
          h in
      let (a, b) =
        report_edge_ok mongo cfg (r 0) Action.delete "relationship.deleted" e caller s t tt h1 in
      let (c, d) = report_all_ok (λ n. r (suc n)) es caller t s' u k1 in (c ∙ a, d ∙ b)

  detached_ok :
      (r : ℕ → Readings) (node : Node) (es : List EdgeDoc) (caller : Caller) (s s' : Store mongo)
      (n : ℕ)
      → es ≡ mongo.find (incident node) s.edges
      → detached_edges mongo cfg r node es caller s ≡ (ok n, s')
      → (n ≡ mongo.count_documents (incident node) s.edges)
        × (mongo.count_documents (incident node) s'.edges ≡ 0)
        × (s'.cis ≡ s.cis)
  unfolding detached_edges
  detached_ok r node [] caller s s' n found h =
      let none_there : 0 ≡ mongo.count_documents (incident node) s.edges =
        ap length (found ∙ mongo.find_lem (incident node) s.edges)
        ∙ sym (mongo.count_lem (incident node) s.edges) in
      let last : s ≡ s' = ap (λ y. y.1) h in
      (cc, rw (sym last) (sym none_there), rw (sym last) refl)
  detached_ok r node (e ∷ es) caller s s' n found h =
      let s0 = record s { edges = mongo.delete_many (incident node) s.edges } in
      let (t, h1, k1) = then_ok (report_all mongo cfg r (e ∷ es) caller) _ s0 s' n h in
      let (a, b) = report_all_ok r (e ∷ es) caller s0 t tt h1 in
      let last : t ≡ s' = ap (λ y. y.1) k1 in
      let counted : length (e ∷ es) ≡ mongo.count_documents (incident node) s.edges =
        ap length (found ∙ mongo.find_lem (incident node) s.edges)
        ∙ sym (mongo.count_lem (incident node) s.edges) in
      (
        cc,
        rw
            (
              sym last,
              a,
              mongo.count_lem (incident node) (mongo.delete_many (incident node) s.edges),
              mongo.docs-delete_many (incident node) s.edges,
            )
            (select-select-not (incident node) (mongo.docs s.edges)),
        rw (sym last) b,
      )

  -- A detachment that returns gives the number of relationships that the CI had, at either end, and
  -- leaves it none; the CIs are the same.
  pub detach_ci-count_edges :
      (r : ℕ → Readings) (ci_type : String) (oid : ℕ) (caller : Caller) (s s' : Store mongo) (n : ℕ)
      → detach_ci mongo cfg r ci_type oid caller s ≡ (ok n, s')
      → (n ≡ count_edges mongo cfg ci_type oid s)
        × (count_edges mongo cfg ci_type oid s' ≡ 0)
        × (s'.cis ≡ s.cis)
  unfolding detach_ci count_edges
  detach_ci-count_edges r ci_type oid caller s s' n h =
      detached_ok r (ci_type, oid) (mongo.find (incident (ci_type, oid)) s.edges) caller s s' n refl
        h

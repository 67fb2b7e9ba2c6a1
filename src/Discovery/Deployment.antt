-- ===== src/Discovery/Deployment.antt =====
-- The repositories of a deployment as the reconciler is given them: the database, the worker's
-- registry of relationship types, and the readings that the calls to come will make, the first
-- number counting the calls and the second the readings within one.
use cmdboss.Prelude.{ℕ, suc, true, none, some}
use cmdboss.Errors.Result.{Result, ok, err, Exec}
use cmdboss.Driver.{Driver}
use cmdboss.Store.{Store, Config, Readings, Caller}
use cmdboss.Repository.Discovery.{apply_discovery, iter_source}
use cmdboss.Repository.Delete.{delete}
use cmdboss.Repository.Missing.{mark_missing}
use cmdboss.Relationships.{RelRegistry}
use cmdboss.Relationships.Edges.{NewEdge}
use cmdboss.Relationships.Edges.Requests.{create_edge}
use cmdboss.Relationships.Edges.Removal.{delete_edge, relationship_guard, iter_source_edges}
use cmdboss.Discovery.{DiscoveryRun, Repositories}

module _ (mongo : Driver) where
  pub record Deployment : Type 0 where
    pub store : Store mongo
    pub relations : RelRegistry mongo
    pub clock : ℕ → ℕ → Readings

  later : (ℕ → ℕ → Readings) → ℕ → ℕ → Readings
  later clock n k = clock (suc n) k

  -- a call on the database, with the readings of this call
  on_store : {A : Type 0} → ((ℕ → Readings) → Exec (Store mongo) A) → Exec Deployment A
  unfolding later
  on_store f d =
      let (x, s) = f (d.clock 0) d.store in (x, record d { store = s; clock = later d.clock })

  abbrev pub caller_of : DiscoveryRun → Caller
  caller_of run = record { actor = run.actor; request_id = some run.run_id }

  none_returned : {A : Type 0} → Result A → Result (Unit {0})
  none_returned (ok a) = ok tt
  none_returned (err e) = err e

  create_relationship : Config mongo → NewEdge → DiscoveryRun → Exec Deployment (Unit {0})
  unfolding later none_returned
  create_relationship cfg x run d =
      let (result, (s, w)) =
        create_edge mongo cfg (d.clock 0 0) x (caller_of run) (d.store, d.relations) in
      (none_returned result, record d { store = s; relations = w; clock = later d.clock })

  unfoldable pub repositories : Config mongo → Repositories Deployment
  unfolding on_store create_relationship
  repositories cfg = record {
    iter_source = λ type source d. iter_source mongo cfg type source d.store;
    apply_discovery =
        λ type fields o actor. on_store (λ r. apply_discovery mongo cfg (r 0) type fields o actor);
    delete_ci = λ type id run. on_store (λ r.
        delete mongo cfg (some (relationship_guard mongo cfg (λ n. r (suc n)))) (r 0) type id none
          (caller_of run) true);
    mark_missing =
        λ type id run. on_store (λ r. mark_missing mongo cfg (r 0) type id run.run_id run.actor);
    create_edge = create_relationship cfg;
    iter_source_edges = λ source d. iter_source_edges mongo cfg source d.store;
    delete_edge = λ id run. on_store (λ r. delete_edge mongo cfg (r 0) id none (caller_of run));
  }

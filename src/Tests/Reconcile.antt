-- ===== src/Tests/Reconcile.antt =====
-- A run of discovery over an empty database, its record, and a poll of the invalidator.
use cmdboss.Prelude.{
  eq_iff, ◌+◌, ◌*◌, ◌≡◌, ◌≤◌, refl, String, none, [], ◌∷◌, Dict, Memᴰ, length, lookup, insert,
  remove, first, select, any, arith,
}
use cmdboss.Value.{jsonable}
use cmdboss.Documents.{serialize}
use cmdboss.Text.{lower}
use cmdboss.Errors.{Error}
use cmdboss.Errors.Result.{Result, ok, err, transaction}
use cmdboss.Driver.InMemory.{in_memory}
use cmdboss.Registry.{get_type, cache_get, cache_put, compile, active_named}
use cmdboss.Store.{record_audit, emit}
use cmdboss.Repository.{type_doc, compiled, validated}
use cmdboss.Repository.Create.{insert_ci}
use cmdboss.Repository.Discovery.{
  comes_from, apply_new, apply_body, apply_discovery, iter_source, collect_ids, of_source,
}
use cmdboss.Schema.{coherent}
use cmdboss.Schema.Compile.{compile_model, define_field, annotate, constraints}
use cmdboss.Audit
use cmdboss.Outbox
use cmdboss.Discovery.{NodeExternalRef, DiscoveryResult, DiscoveryRun, Provider, provider_named}
use cmdboss.Discovery.Reconciler.{
  Report, of_edge, group, tally, ci_id_of, resolved, item_outcome, apply_item, apply_items,
  retire_stale, reconcile_types, put_edges, remove_stale_edges, reconcile_edges, reconcile,
}
use cmdboss.Discovery.Reconciler.Counts.{items_counted, edges_counted, desired_count}
use cmdboss.Discovery.Reconciler.Accounts.{reconcile_accounts}
use cmdboss.Discovery.Deployment.{Deployment, repositories}
use cmdboss.Discovery.Service.{Request, RunReadings, Outcome, Runs, run_of, started, run, get_run}
use cmdboss.Discovery.Service.Recorded.{recorded, run-recorded}
use cmdboss.Invalidator.{Invalidator, poll_once}
use cmdboss.Invalidator.Fresh.{poll_once-get_type}
use cmdboss.Relationships.Edges.Removal.{iter_source_edges, collect_edges, edge_of_source, put_key}
use cmdboss.Tests.World.{cfg, empty_store, at_time, host, server, worker}

abbrev deployment : Deployment in_memory
deployment = record {
  store = empty_store;
  relations = record { rel_types = []; rel_cache = []; rel_ttl = 30 };
  clock = λ n k. at_time (20 + 10 * n + k);
}

abbrev here : String → NodeExternalRef
here ext = record { type = "server"; external_id = ext }

-- two items, one of them twice, and a relationship to an item that is not in the snapshot
abbrev snapshot : DiscoveryResult
snapshot = record {
  items =
      record { type = "server"; external_id = "i-1"; fields = host "a" }
      ∷ record { type = "server"; external_id = "i-2"; fields = host "b" }
      ∷ record { type = "server"; external_id = "i-1"; fields = host "c" }
      ∷ [];
  relationships =
      record { rel_type = "runs_on"; from_ref = here "i-1"; to_ref = here "i-9"; attributes = none }
      ∷ [];
}

abbrev aws : DiscoveryRun
aws = record { source = "aws"; run_id = 40; on_missing = "mark"; actor = "ann" }

abbrev first_run : Result Report × Deployment in_memory
first_run = reconcile (repositories in_memory cfg) aws snapshot deployment

abbrev first_report : Report
first_report = record {
  ci = record {
    created = 2;
    updated = 0;
    unchanged = 0;
    deleted = 0;
    marked_missing = 0;
    errors = [];
  };
  relationships = record {
    created = 0;
    unchanged = 0;
    deleted = 0;
    errors = of_edge "runs_on" "unresolved_endpoint" ∷ [];
  };
}

first_run_returns : first_run ≡ (ok first_report, first_run.1)
unfolding reconcile reconcile_edges reconcile_types group insert lookup apply_items apply_item
    item_outcome tally retire_stale put_edges ci_id_of resolved remove_stale_edges repositories
    apply_discovery apply_body apply_new comes_from type_doc get_type compiled compile validated
    first lower remove coherent compile_model define_field annotate constraints transaction
    insert_ci any record_audit Audit.append Audit.entry_doc Audit.changes emit Outbox.add serialize
    jsonable cache_get cache_put select iter_source collect_ids of_source iter_source_edges
    collect_edges edge_of_source put_key
first_run_returns = refl

reconcile_accounts_example :
    (items_counted first_report.ci ≡ desired_count (group snapshot.items []))
    × (edges_counted first_report.relationships ≡ length snapshot.relationships)
reconcile_accounts_example =
    reconcile_accounts (repositories in_memory cfg) aws snapshot first_report deployment first_run.1
      first_run_returns

-- the provider raises
abbrev broken : Provider
broken = record { name = "aws"; discover = λ config. err Error.unexpected }

abbrev request : Request
request = record {
  provider_name = "aws";
  config = none;
  source = none;
  on_missing = none;
  actor = "ann";
}

abbrev readings : RunReadings
readings = record { run_id = 40; started_at = 1; finished_at = 2 }

abbrev providers : Dict Provider
providers = ("aws", broken) ∷ []

abbrev failing : Result Outcome × Runs in_memory (repositories in_memory cfg) "mark"
failing =
    run in_memory (repositories in_memory cfg) "mark" readings request providers ([], deployment)

run-recorded_example :
    get_run in_memory 40 failing.1.0
    ≡ ok (recorded readings failing.0 (started readings request (run_of "mark" readings request)))
unfolding provider_named lookup any
run-recorded_example =
    run-recorded in_memory (repositories in_memory cfg) "mark" readings request providers broken []
      failing.1.0 deployment failing.1.1 failing.0 refl refl refl

-- a worker that has cached the absence of the type
abbrev stale : Invalidator in_memory
stale = record {
  worker = record worker {
    types = record server { updated_at = 7 } ∷ [];
    type_cache = ("server", (99, none)) ∷ [];
  };
  watermark = 5;
}

poll_once-get_type_example :
    ((get_type in_memory 20 21 "Server" (poll_once in_memory stale).1.worker).0
      ≡ in_memory.find_one (active_named "server") stale.worker.types)
    × (7 ≤ (poll_once in_memory stale).1.watermark)
unfolding lower
poll_once-get_type_example =
    poll_once-get_type in_memory stale (record server { updated_at = 7 }) 20 21 "Server"
      (Memᴰ.head refl) (omega arith) refl (λ h. cc ((eq_iff "server" "").1 h))

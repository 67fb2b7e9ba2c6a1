-- ===== src/Tests/Discovery.antt =====
-- A second run of discovery over the same inventory.
use cmdboss.Prelude.{
  clashes_with, ◌≡◌, refl, String, lookup, insert, remove, first, select, any, update_first, merge,
}
use cmdboss.Value.{jsonable, value_eq}
use cmdboss.Documents.{serialize}
use cmdboss.Text.{lower}
use cmdboss.Errors.Result.{Result, ok, transaction}
use cmdboss.Driver.InMemory.{in_memory}
use cmdboss.Registry.{get_type, cache_get, cache_put, compile}
use cmdboss.Store.{Store, record_audit, emit}
use cmdboss.Repository.{type_doc, compiled, validated}
use cmdboss.Repository.Create.{insert_ci}
use cmdboss.Repository.Discovery.{
  Applied, Origin, comes_from, touched, seen, object_of, same_fields, apply_new, refresh, rewrite,
  write_changes, apply_existing, apply_body, apply_discovery,
}
use cmdboss.Repository.Discovery.Unchanged.{SameContents, discovery_unchanged}
use cmdboss.Schema.{coherent}
use cmdboss.Schema.Compile.{compile_model, define_field, annotate, constraints}
use cmdboss.Audit
use cmdboss.Outbox
use cmdboss.Tests.World.{cfg, empty_store, at_time, host}

abbrev origin : Origin
origin = record { source = "aws"; external_id = "i-1"; run_id = 40 }

abbrev first_run : Result (String × Applied) × Store in_memory
first_run = apply_discovery in_memory cfg (at_time 7) "server" (host "a") origin "ann" empty_store

abbrev second_run : Result (String × Applied) × Store in_memory
second_run = apply_discovery in_memory cfg (at_time 9) "server" (host "a") origin "ann" first_run.1

nothing_new : second_run ≡ (ok (in_memory.id_text 7, Applied.unchanged), second_run.1)
unfolding apply_discovery apply_body apply_new apply_existing refresh write_changes rewrite
    comes_from touched seen object_of same_fields value_eq merge type_doc get_type compiled compile
    validated lookup first lower insert remove coherent compile_model define_field annotate
    constraints transaction insert_ci any record_audit Audit.append Audit.entry_doc Audit.changes
    emit Outbox.add serialize jsonable cache_get cache_put select update_first clashes_with
nothing_new = refl

discovery_unchanged_example : SameContents in_memory cfg "server" first_run.1 second_run.1
discovery_unchanged_example =
    discovery_unchanged in_memory cfg (at_time 9) "server" (host "a") origin "ann" first_run.1
      second_run.1 (in_memory.id_text 7) nothing_new

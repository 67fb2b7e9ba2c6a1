-- ===== src/Tests/Removal.antt =====
-- The deletion of a CI that has no relationships.
use cmdboss.Prelude.{
  ℕ, ◌≡◌, refl, false, some, lookup, insert, remove, first, select, any, delete_first,
}
use cmdboss.Value.{jsonable, Number}
use cmdboss.Documents.{serialize}
use cmdboss.Text.{lower}
use cmdboss.Errors.Result.{Result, ok, transaction}
use cmdboss.Driver.InMemory.{in_memory}
use cmdboss.Registry.{get_type, cache_get, cache_put, compile}
use cmdboss.Store.{Store, record_audit, emit}
use cmdboss.Store.Frame.{SameData}
use cmdboss.Repository.{type_doc, compiled, validated, existing, parse_object_id}
use cmdboss.Repository.Guard.{Guard}
use cmdboss.Repository.Create.{create, create_write, create_body, insert_ci, idem_key}
use cmdboss.Repository.Update.Cas.{HasUniqueIds}
use cmdboss.Repository.Delete.{delete, delete_body, check_revision, check_edges, delete_ci}
use cmdboss.Repository.Delete.Guarded.{Deleted, delete_effects}
use cmdboss.Relationships.Edges.{incident}
use cmdboss.Relationships.Edges.Removal.{relationship_guard, count_edges}
use cmdboss.Schema.{coherent}
use cmdboss.Schema.Compile.{compile_model, define_field, annotate, constraints}
use cmdboss.Audit
use cmdboss.Outbox
use cmdboss.Tests.World.{cfg, at_time, ann}
use cmdboss.Tests.Creation.{created}

unique : HasUniqueIds in_memory cfg "server" created.1
unfolding HasUniqueIds create type_doc get_type compiled compile validated idem_key create_write
    create_body lookup first lower insert remove coherent compile_model define_field annotate
    constraints transaction insert_ci any record_audit Audit.append Audit.entry_doc Audit.changes
    emit Outbox.add serialize jsonable cache_get cache_put select
unique = (refl, tt)

abbrev the_guard : Guard in_memory
the_guard = relationship_guard in_memory cfg (λ n. at_time n)

abbrev deleted : Result (Unit {0}) × Store in_memory
deleted =
    delete in_memory cfg (some the_guard) (at_time 8) "server" (in_memory.id_text 7)
      (some (Number.above 1)) ann false created.1

deleted_ok : deleted ≡ (ok tt, deleted.1)
unfolding create type_doc get_type compiled compile validated idem_key create_write create_body
    lookup first lower insert remove coherent compile_model define_field annotate constraints
    transaction insert_ci any record_audit Audit.append Audit.entry_doc Audit.changes emit
    Outbox.add serialize jsonable cache_get cache_put select delete delete_body check_revision
    check_edges delete_ci existing parse_object_id delete_first count_edges incident
    relationship_guard
deleted_ok = refl

delete_effects_example :
    (oid : ℕ) × (v : Store in_memory) × (in_memory.object_id (in_memory.id_text 7) ≡ some oid)
    × SameData in_memory created.1 v
    × (the_guard.count_edges "server" oid v ≡ 0)
    × Deleted in_memory cfg
        (at_time 8)
        "server"
        (in_memory.id_text 7)
        oid
        (some (Number.above 1))
        ann
        v
        deleted.1
delete_effects_example =
    delete_effects in_memory cfg the_guard (at_time 8) "server" (in_memory.id_text 7)
      (some (Number.above 1)) ann created.1 deleted.1 tt unique deleted_ok

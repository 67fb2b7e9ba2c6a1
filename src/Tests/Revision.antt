-- ===== src/Tests/Revision.antt =====
-- The update and the deletion of a CI.
use cmdboss.Prelude.{
  clashes_with, ℕ, ◌≡◌, refl, true, false, none, some, lookup, insert, remove, first, select, any,
  update_first, merge,
}
use cmdboss.Value.{jsonable, value_eq, Number}
use cmdboss.Documents.{Item, serialize}
use cmdboss.Text.{lower}
use cmdboss.Errors.{Error}
use cmdboss.Errors.Result.{Result, ok, err, transaction}
use cmdboss.Driver.InMemory.{in_memory}
use cmdboss.Registry.{TypeDoc, get_type, cache_get, cache_put, compile}
use cmdboss.Store.{Store, record_audit, emit}
use cmdboss.Store.Frame.{SameData}
use cmdboss.Repository.{type_doc, compiled, validated, existing, parse_object_id}
use cmdboss.Repository.Create.{create, create_write, create_body, insert_ci, idem_key}
use cmdboss.Repository.Update.{update, update_body, swap}
use cmdboss.Repository.Update.Cas.{HasUniqueIds, Updated}
use cmdboss.Repository.Update.Revisions.{update_effects, lost_update, update_atomic}
use cmdboss.Schema.{coherent}
use cmdboss.Schema.Compile.{compile_model, define_field, annotate, constraints}
use cmdboss.Audit
use cmdboss.Outbox
use cmdboss.Tests.World.{cfg, at_time, ann, host}
use cmdboss.Tests.Creation.{created}

unique : HasUniqueIds in_memory cfg "server" created.1
unfolding HasUniqueIds create type_doc get_type compiled compile validated idem_key create_write
    create_body lookup first lower insert remove coherent compile_model define_field annotate
    constraints transaction insert_ci any record_audit Audit.append Audit.entry_doc Audit.changes
    emit Outbox.add serialize jsonable cache_get cache_put select
unique = (refl, tt)

abbrev item_b : Item
item_b = record {
  id = in_memory.id_text 7;
  fields = host "b";
  meta = record {
    type = "server";
    revision = 2;
    schema_version = 3;
    created_at = 7;
    updated_at = 8;
    created_by = "ann";
    updated_by = "ann";
    provenance = none;
  };
}

abbrev edited_b : Result Item × Store in_memory
edited_b =
    update in_memory cfg (at_time 8) "server" (in_memory.id_text 7) (host "b")
      (some (Number.above 1)) false ann created.1

edited_b_ok : edited_b ≡ (ok item_b, edited_b.1)
unfolding create type_doc get_type compiled compile validated idem_key create_write create_body
    lookup first lower insert remove coherent compile_model define_field annotate constraints
    transaction insert_ci any record_audit Audit.append Audit.entry_doc Audit.changes emit
    Outbox.add serialize jsonable cache_get cache_put select update update_body existing swap
    parse_object_id merge update_first Audit.diff Audit.diff_keys Audit.all_keys value_eq
    clashes_with
edited_b_ok = refl

update_effects_example :
    (t : TypeDoc) × (oid : ℕ) × (in_memory.object_id (in_memory.id_text 7) ≡ some oid)
    × Updated in_memory cfg
        (at_time 8)
        "server"
        (in_memory.id_text 7)
        oid
        t
        (some (Number.above 1))
        ann
        item_b
        created.1
        edited_b.1
update_effects_example =
    update_effects in_memory cfg (at_time 8) "server" (in_memory.id_text 7) (host "b")
      (some (Number.above 1)) false ann created.1 edited_b.1 item_b unique edited_b_ok

-- a second client with the same revision in hand
abbrev stale : Result Item × Store in_memory
stale =
    update in_memory cfg (at_time 9) "server" (in_memory.id_text 7) (host "c")
      (some (Number.above 1)) true ann edited_b.1

lost_update_example : (e : Error) × (stale.0 ≡ err e)
lost_update_example =
    lost_update in_memory cfg (at_time 8) (at_time 9) "server" (in_memory.id_text 7) (host "b")
      (host "c") (some (Number.above 1)) false true ann ann created.1 edited_b.1 stale.1 item_b
      stale.0 unique edited_b_ok refl

stale_err : stale ≡ (err (Error.precondition_failed (some (Number.above 1)) 2), stale.1)
unfolding create type_doc get_type compiled compile validated idem_key create_write create_body
    lookup first lower insert remove coherent compile_model define_field annotate constraints
    transaction insert_ci any record_audit Audit.append Audit.entry_doc Audit.changes emit
    Outbox.add serialize jsonable cache_get cache_put select update update_body existing swap
    parse_object_id merge update_first Audit.diff Audit.diff_keys Audit.all_keys value_eq
    clashes_with
stale_err = refl

update_atomic_example : SameData in_memory edited_b.1 stale.1
update_atomic_example =
    update_atomic in_memory cfg (at_time 9) "server" (in_memory.id_text 7) (host "c")
      (some (Number.above 1)) true ann edited_b.1 stale.1
      (Error.precondition_failed (some (Number.above 1)) 2) refl stale_err

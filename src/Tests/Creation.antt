-- ===== src/Tests/Creation.antt =====
-- The creation of a CI, with and without a key.
use cmdboss.Prelude.{
  ◌≡◌, ◌⊎◌, refl, none, some, lookup, insert, remove, first, select, any, update_first,
  delete_first, Dict,
}
use cmdboss.Value.{Value, jsonable}
use cmdboss.Documents.{Item, serialize}
use cmdboss.Text.{lower}
use cmdboss.Errors.{Error}
use cmdboss.Errors.Result.{Result, ok, err, transaction}
use cmdboss.Driver.InMemory.{in_memory}
use cmdboss.Registry.{TypeDoc, get_type, cache_get, cache_put, compile}
use cmdboss.Store.{Store, record_audit, emit}
use cmdboss.Store.Frame.{SameData}
use cmdboss.Repository.{type_doc, compiled, validated}
use cmdboss.Repository.Create.{
  new_ci, create, create_write, create_body, insert_ci, idem_key, idempotency_precheck,
}
use cmdboss.Repository.Create.Effects.{Created}
use cmdboss.Repository.Create.Atomic.{create_effects, create_atomic}
use cmdboss.Repository.Create.Replay.{Remembers, create-Remembers, create_replays}
use cmdboss.Schema.{coherent}
use cmdboss.Schema.Compile.{compile_model, define_field, annotate, constraints}
use cmdboss.Audit
use cmdboss.Outbox
use cmdboss.Idempotency
use cmdboss.Tests.World.{cfg, empty_store, at_time, ann, host}

abbrev pub item_a : Item
item_a = record {
  id = in_memory.id_text 7;
  fields = host "a";
  meta = record {
    type = "server";
    revision = 1;
    schema_version = 3;
    created_at = 7;
    updated_at = 7;
    created_by = "ann";
    updated_by = "ann";
    provenance = none;
  };
}

abbrev pub created : Result Item × Store in_memory
created = create in_memory cfg (at_time 7) "server" (host "a") ann none empty_store

created_ok : created ≡ (ok item_a, created.1)
unfolding create type_doc get_type compiled compile validated idem_key create_write create_body
    lookup first lower insert remove coherent compile_model define_field annotate constraints
    transaction insert_ci any record_audit Audit.append Audit.entry_doc Audit.changes emit
    Outbox.add serialize jsonable cache_get cache_put select
created_ok = refl

create_effects_example :
    (t : TypeDoc) × (fields : Dict Value) × Created in_memory cfg
      (at_time 7)
      "server"
      (new_ci (at_time 7) "server" t "ann" fields)
      ann
      item_a
      empty_store
      created.1
create_effects_example =
    create_effects in_memory cfg (at_time 7) "server" (host "a") ann empty_store created.1 item_a
      created_ok

-- the same ObjectId again
abbrev again : Result Item × Store in_memory
again = create in_memory cfg (at_time 7) "server" (host "b") ann none created.1

again_err : again ≡ (err Error.duplicate_key, again.1)
unfolding create type_doc get_type compiled compile validated idem_key create_write create_body
    lookup first lower insert remove coherent compile_model define_field annotate constraints
    transaction insert_ci any record_audit Audit.append Audit.entry_doc Audit.changes emit
    Outbox.add serialize jsonable cache_get cache_put select
again_err = refl

create_atomic_example : SameData in_memory created.1 again.1
create_atomic_example =
    create_atomic in_memory cfg (at_time 7) "server" (host "b") ann none created.1 again.1
      Error.duplicate_key refl again_err

-- under a key, and a retry of it with another payload
abbrev keyed : Result Item × Store in_memory
keyed = create in_memory cfg (at_time 7) "server" (host "a") ann (some "k") empty_store

keyed_ok : keyed ≡ (ok item_a, keyed.1)
unfolding create type_doc get_type compiled compile validated idem_key create_write create_body
    lookup first lower insert remove coherent compile_model define_field annotate constraints
    transaction insert_ci any record_audit Audit.append Audit.entry_doc Audit.changes emit
    Outbox.add serialize jsonable cache_get cache_put select idempotency_precheck Idempotency.get
    Idempotency.claim Idempotency.store_result Idempotency.release Idempotency.key_of update_first
    delete_first
keyed_ok = refl

key_used : idem_key in_memory cfg (some "k") ≡ some "k"
unfolding idem_key
key_used = refl

key_free : Idempotency.get in_memory "server" "k" empty_store.idempotency ≡ none
unfolding Idempotency.get first
key_free = refl

create-Remembers_example : Remembers in_memory cfg "server" "k" item_a keyed.1
create-Remembers_example =
    create-Remembers in_memory cfg (at_time 7) "server" (host "a") ann "k" empty_store keyed.1
      item_a key_used key_free keyed_ok

known : Remembers in_memory cfg "server" "k" item_a keyed.1
known =
    create-Remembers in_memory cfg (at_time 7) "server" (host "a") ann "k" empty_store keyed.1
      item_a key_used key_free keyed_ok

abbrev retried : Result Item × Store in_memory
retried = create in_memory cfg (at_time 9) "server" (host "b") ann (some "k") keyed.1

create_replays_example :
    SameData in_memory keyed.1 retried.1
    × ((retried.0 ≡ ok item_a) ⊎ ((e : Error) × (retried.0 ≡ err e)))
create_replays_example =
    create_replays in_memory cfg (at_time 9) "server" (host "b") ann "k" keyed.1 retried.1 item_a
      retried.0 key_used known refl

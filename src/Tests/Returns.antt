-- ===== src/Tests/Returns.antt =====
-- A creation and a PATCH that return.
use cmdboss.Prelude.{
  clashes_with, ℕ, false, [], merge, ◌==◌, ◌∷◌, ◌≡◌, refl, true, none, some, lookup, insert, remove,
  first, select, any,
}
use cmdboss.Value.{jsonable}
use cmdboss.Documents.{CiDoc, serialize}
use cmdboss.Text.{lower}
use cmdboss.Errors.Result.{ok, transaction}
use cmdboss.Driver.InMemory.{in_memory}
use cmdboss.Registry.{Model, get_type, cache_get, cache_put, compile}
use cmdboss.Store.{Store, spelling, record_audit, emit}
use cmdboss.Repository.{type_doc, compiled, validated}
use cmdboss.Repository.Create.{new_ci, create, create_write, create_body, insert_ci, idem_key}
use cmdboss.Repository.Create.Returns.{Fresh, create_returns}
use cmdboss.Repository.Update.{update, edited}
use cmdboss.Repository.Update.Returns.{FreshRows, Fits, update_returns}
use cmdboss.Value.{Number}
use cmdboss.Schema.{coherent}
use cmdboss.Schema.Compile.{
  Annotation, Primitive, compile_model, define_field, annotate, constraints,
}
use cmdboss.Audit
use cmdboss.Outbox
use cmdboss.Tests.World.{cfg, empty_store, at_time, ann, host, server}
use cmdboss.Tests.Creation.{created}

abbrev model : Model
model =
    (
      "host",
      record {
        annotation = Annotation.primitive Primitive.str;
        optional = false;
        default = none;
        constraints = [];
      },
    )
    ∷ []

-- the database after the type is looked up, and after it is compiled
abbrev looked_up : ℕ → Store in_memory → Store in_memory
looked_up n s = (type_doc in_memory cfg (at_time n) "server" s).1

abbrev prepared : ℕ → Store in_memory → Store in_memory
prepared n s = (compiled in_memory cfg (at_time n) "server" (looked_up n s)).1

unused : idem_key in_memory cfg (some "") ≡ none
unfolding idem_key
unused = refl

found :
    type_doc in_memory cfg (at_time 7) "server" empty_store ≡ (ok server, looked_up 7 empty_store)
unfolding type_doc get_type lower cache_get cache_put lookup insert remove first
found = refl

made :
    compiled in_memory cfg (at_time 7) "server" (looked_up 7 empty_store)
    ≡ (ok model, prepared 7 empty_store)
unfolding type_doc get_type compiled compile lookup first lower insert remove coherent compile_model
    define_field annotate constraints cache_get cache_put
made = refl

abbrev first_ci : CiDoc
first_ci = new_ci (at_time 7) "server" server "ann" (host "a")

fresh : Fresh in_memory cfg (at_time 7) "server" first_ci empty_store
unfolding any
fresh = (refl, refl, refl)

create_returns_example :
    (s' : Store in_memory) × (create in_memory cfg
        (at_time 7)
        "server"
        (host "a")
        ann
        (some "")
        empty_store
      ≡ (
        ok (
            serialize
              (spelling in_memory cfg)
              (new_ci (at_time 7) "server" server "ann" (host "a"))),
        s',
      ))
create_returns_example =
    create_returns in_memory cfg (at_time 7) "server" (host "a") (host "a") ann (some "")
      empty_store (looked_up 7 empty_store) (prepared 7 empty_store) server model unused found made
      refl fresh

there : in_memory.find_one (λ (d : CiDoc). d.id == 7) (created.1.cis "server") ≡ some first_ci
unfolding create type_doc get_type compiled compile validated idem_key create_write create_body
    lookup first lower insert remove coherent compile_model define_field annotate constraints
    transaction insert_ci any record_audit Audit.append Audit.entry_doc Audit.changes emit
    Outbox.add serialize jsonable cache_get cache_put select
there = refl

found_again :
    type_doc in_memory cfg (at_time 8) "server" created.1 ≡ (ok server, looked_up 8 created.1)
unfolding create type_doc get_type compiled compile validated idem_key create_write create_body
    lookup first lower insert remove coherent compile_model define_field annotate constraints
    transaction insert_ci any record_audit Audit.append Audit.entry_doc Audit.changes emit
    Outbox.add serialize jsonable cache_get cache_put select
found_again = refl

made_again :
    compiled in_memory cfg (at_time 8) "server" (looked_up 8 created.1)
    ≡ (ok model, prepared 8 created.1)
unfolding create type_doc get_type compiled compile validated idem_key create_write create_body
    lookup first lower insert remove coherent compile_model define_field annotate constraints
    transaction insert_ci any record_audit Audit.append Audit.entry_doc Audit.changes emit
    Outbox.add serialize jsonable cache_get cache_put select
made_again = refl

-- a PATCH of the same field
merged : cfg.validate model (merge first_ci.fields (host "b")) ≡ some (host "b")
unfolding merge insert remove
merged = refl

-- no other CI is there
fits : Fits in_memory cfg (at_time 8) "ann" "server" 7 server (host "b") first_ci created.1
unfolding clashes_with create type_doc get_type compiled compile validated idem_key create_write
    create_body lookup first lower insert remove coherent compile_model define_field annotate
    constraints transaction insert_ci any record_audit Audit.append Audit.entry_doc Audit.changes
    emit Outbox.add serialize jsonable cache_get cache_put select
fits = refl

new_rows : FreshRows in_memory cfg (at_time 8) created.1
unfolding create type_doc get_type compiled compile validated idem_key create_write create_body
    lookup first lower insert remove coherent compile_model define_field annotate constraints
    transaction insert_ci any record_audit Audit.append Audit.entry_doc Audit.changes emit
    Outbox.add serialize jsonable cache_get cache_put select
new_rows = (refl, refl)

update_returns_example :
    (s' : Store in_memory) × (update in_memory cfg
        (at_time 8)
        "server"
        (in_memory.id_text 7)
        (host "b")
        (some (Number.above 1))
        true
        ann
        created.1
      ≡ (
        ok (serialize (spelling in_memory cfg) (edited (at_time 8) "ann" 3 2 (host "b") first_ci)),
        s',
      ))
update_returns_example =
    update_returns in_memory cfg (at_time 8) "server" (in_memory.id_text 7) (host "b") (host "b")
      true ann created.1 (looked_up 8 created.1) (prepared 8 created.1) server model 7 first_ci
      found_again made_again (in_memory.object_id-id_text 7) there merged fits new_rows

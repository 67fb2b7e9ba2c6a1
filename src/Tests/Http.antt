-- ===== src/Tests/Http.antt =====
-- A PATCH over HTTP, and the attempts of a webhook.
use cmdboss.Prelude.{
  clashes_with, ℕ, ◌<◌, ◌≡◌, refl, String, true, none, some, Option, lookup, first, insert, remove,
  any, select, merge, update_first, arith, [], ◌∷◌, ◌⊎◌, ◌==◌, if◌then◌else◌,
}
use cmdboss.Value.{Number, jsonable, value_eq}
use cmdboss.Text.{lower, strip}
use cmdboss.Text.Numerals.{print_nat, parse_int}
use cmdboss.Errors.Result.{Result, ok, transaction}
use cmdboss.Documents.{CiDoc, Item, serialize}
use cmdboss.Driver.InMemory.{in_memory}
use cmdboss.Security.{Principal}
use cmdboss.Registry.{get_type, cache_get, cache_put, compile}
use cmdboss.Store.{Store, record_audit, emit}
use cmdboss.Repository.{type_doc, compiled, validated, parse_object_id, existing}
use cmdboss.Repository.Create.{create, create_body, create_write, idem_key, insert_ci}
use cmdboss.Repository.Update.{update, update_body, swap}
use cmdboss.Repository.Update.Cas.{HasUniqueIds}
use cmdboss.Schema.{coherent}
use cmdboss.Schema.Compile.{compile_model, define_field, annotate, constraints}
use cmdboss.Audit
use cmdboss.Outbox
use cmdboss.Http.{Response, Body, with_etag, etag_of, parse_if_match, write_ci}
use cmdboss.Http.{Gate, guarded, ci_write, problem_of}
use cmdboss.Http.Atomic.{CiWrite, status_of, route, guarded-ci_write}
use cmdboss.Security.{require, get_principal, missing_scopes, has_scope, is_admin}
use cmdboss.Errors.{Error}
use cmdboss.Store.Frame.{SameData}
use cmdboss.Http.Writes.{Replaced, write_ci-parse_if_match}
use cmdboss.Webhooks.{deliver_hook}
use cmdboss.Webhooks.Attempts.{AcceptedAt, RefusedAll, deliver_hook-cases}
use cmdboss.Tests.World.{cfg, at_time, host}
use cmdboss.Tests.Creation.{created}

unique : HasUniqueIds in_memory cfg "server" created.1
unfolding HasUniqueIds create type_doc get_type compiled compile validated idem_key create_write
    create_body lookup first lower insert remove coherent compile_model define_field annotate
    constraints transaction insert_ci any record_audit Audit.append Audit.entry_doc Audit.changes
    emit Outbox.add serialize jsonable cache_get cache_put select
unique = (refl, tt)

abbrev writer : Principal
writer = record { id = "k"; name = "ann"; scopes = "ci:write" ∷ [] }

abbrev patched : Result Response × Store in_memory
patched =
    write_ci in_memory cfg true (at_time 8) none "server" (in_memory.id_text 7) (host "b")
      (some "\"1\"") writer created.1

abbrev patched_item : Item
patched_item = record {
  id = in_memory.id_text 7;
  fields = host "b";
  meta = record {
    type = "server";
    revision = 2;
    schema_version = 3;
    created_at = 7;
    updated_at = 8;
    created_by = "ann";
    updated_by = "ann";
    provenance = none;
  };
}

abbrev patched_response : Response
patched_response = record { status = 200; etag = some "\"2\""; body = Body.item patched_item }

patched_ok : patched ≡ (ok patched_response, patched.1)
unfolding write_ci with_etag etag_of print_nat parse_if_match strip parse_int create type_doc
    get_type compiled compile validated idem_key create_write create_body lookup first lower insert
    remove coherent compile_model define_field annotate constraints transaction insert_ci any
    record_audit Audit.append Audit.entry_doc Audit.changes emit Outbox.add serialize jsonable
    cache_get cache_put select update update_body existing swap parse_object_id merge update_first
    Audit.diff Audit.diff_keys Audit.all_keys value_eq clashes_with
patched_ok = refl

write_ci-parse_if_match_example :
    (oid : ℕ) × (old new : CiDoc) × (etag : String) × (in_memory.object_id (in_memory.id_text 7)
      ≡ some oid)
    × Replaced in_memory cfg "server" oid old new created.1 patched.1
    × (parse_if_match true (some "\"1\"") ≡ ok (some (Number.above old.meta.revision)))
    × (patched_response.status ≡ 200)
    × (patched_response.etag ≡ some etag)
    × (parse_if_match true (some etag) ≡ ok (some (Number.above new.meta.revision)))
write_ci-parse_if_match_example =
    write_ci-parse_if_match in_memory cfg true (at_time 8) none "server" (in_memory.id_text 7)
      (host "b") (some "\"1\"") writer created.1 patched.1 patched_response unique patched_ok

abbrev gate : Gate
gate = record { enabled = true; now = 0; who = some writer }

abbrev patch_b : CiWrite
patch_b = CiWrite.put_or_patch true (in_memory.id_text 7) (host "b") (some "\"1\"")

gated :
    guarded ci_write gate none
      (route in_memory cfg none (at_time 8) none "server" patch_b)
      created.1
    ≡ (patched_response, (patched.1, none))
unfolding guarded require get_principal missing_scopes has_scope is_admin route write_ci with_etag
    etag_of print_nat parse_if_match strip parse_int create type_doc get_type compiled compile
    validated idem_key create_write create_body lookup first lower insert remove coherent
    compile_model define_field annotate constraints transaction insert_ci any record_audit
    Audit.append Audit.entry_doc Audit.changes emit Outbox.add serialize jsonable cache_get
    cache_put select update update_body existing swap parse_object_id merge update_first Audit.diff
    Audit.diff_keys Audit.all_keys value_eq clashes_with
gated = refl

guarded-ci_write_example :
    ((e : Error) × (patched_response ≡ problem_of e) × SameData in_memory created.1 patched.1)
    ⊎ ((p : Principal) × (require ci_write true 0 (some writer) none ≡ (ok p, none))
        × (has_scope p "ci:write" ≡ true)
        × (patched_response.status ≡ status_of patch_b))
guarded-ci_write_example =
    guarded-ci_write in_memory cfg none (at_time 8) none "server" patch_b gate none none created.1
      patched.1 patched_response refl gated

-- the second attempt is accepted
abbrev second : ℕ → Option ℕ
second n = if n == 0 then some 503 else some 200

deliver_hook-cases_example :
    ((k : ℕ) × (k < 3) × AcceptedAt second 0 k (deliver_hook second 3))
    ⊎ RefusedAll second 3 3 (deliver_hook second 3)
deliver_hook-cases_example = deliver_hook-cases second 3 (omega arith)

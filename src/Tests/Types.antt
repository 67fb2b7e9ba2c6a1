-- ===== src/Tests/Types.antt =====
-- Types, their fields, the registry, and the values of a document.
use cmdboss.Prelude.{
  ◌+◌, ◌≡◌, ◌↔◌, refl, String, Bool, true, none, some, [], ◌∷◌, Dict, lookup, first, any,
}
use cmdboss.Value.{Value, Number, Spelling, jsonable}
use cmdboss.Value.Jsonable.{IsJson, jsonable_lem}
use cmdboss.Text.{lower}
use cmdboss.Errors.Result.{ok}
use cmdboss.Schema.{FieldType, FieldSpec, CiTypeDefinition, valid, coherent}
use cmdboss.Schema.Compile.{
  FieldDefinition, Annotation, Primitive, Constraint, annotate, constraints,
}
use cmdboss.Schema.Constraints.{Among, constraints-Declared}
use cmdboss.Schema.Coherence.{IsCoherent, coherent_iff}
use cmdboss.Driver.InMemory.{in_memory}
use cmdboss.Registry.{
  TypeDoc, Worker, new_type, revised, active_named, get_type, create_type, update_type,
  deactivate_type,
}
use cmdboss.Registry.Writes.{AreDistinct, get_type-create, get_type-update, get_type-deactivate}
use cmdboss.Audit.{diff}
use cmdboss.Audit.Changes.{change_at, lookup-diff}
use cmdboss.Tests.World.{plain_text, server, worker, host}

abbrev all_compile : String → Bool
all_compile p = true

coherent_iff_example :
    (coherent all_compile plain_text ≡ valid plain_text) ↔ IsCoherent all_compile plain_text
coherent_iff_example = coherent_iff all_compile plain_text

-- a create_model that takes every definition of a field
abbrev creates_all : String → Dict FieldDefinition → Bool
creates_all name defs = true

abbrev ranged : FieldSpec
ranged = record plain_text { type = FieldType.integer; minimum = some (Number.above 3) }

ranged_int : annotate ranged ≡ some (Annotation.primitive Primitive.int)
unfolding annotate
ranged_int = refl

constraints-Declared_example :
    Among (Constraint.ge (Number.above 3)) (constraints ranged)
    ↔ (some (Number.above 3) ≡ some (Number.above 3))
constraints-Declared_example =
    constraints-Declared ranged (Annotation.primitive Primitive.int)
      (Constraint.ge (Number.above 3)) ranged_int

abbrev spell : Spelling
spell = record { id_text = λ n. "id"; iso = λ n. "now" }

jsonable_lem_example :
    IsJson (jsonable spell (Value.object_id 3))
    × (jsonable spell (jsonable spell (Value.object_id 3)) ≡ jsonable spell (Value.object_id 3))
jsonable_lem_example = jsonable_lem spell (Value.object_id 3)

abbrev router : CiTypeDefinition
router = record {
  name = "router";
  description = none;
  fields = ("host", plain_text) ∷ [];
  indexes = [];
}

-- the cache of the worker holds that there is no router
abbrev with_miss : Worker in_memory
with_miss = record worker { type_cache = ("router", (90, none)) ∷ [] }

abbrev router_doc : TypeDoc
router_doc = new_type 2 5 router "ann"

router_low : lower router.name ≡ router.name
unfolding lower
router_low = refl

router_made : (create_type in_memory 2 5 true router "ann" with_miss).0 ≡ ok router_doc
unfolding create_type any
router_made = refl

get_type-create_example :
    (get_type in_memory 6 7 "router" (create_type in_memory 2 5 true router "ann" with_miss).1).0
    ≡ some router_doc
get_type-create_example =
    get_type-create in_memory 6 7 2 5 router "ann" with_miss router_doc router_low router_made

abbrev server_next : CiTypeDefinition
server_next = record router { name = "server" }

server_low : lower server_next.name ≡ server_next.name
unfolding lower
server_low = refl

server_there : in_memory.find_one (active_named "server") worker.types ≡ some server
unfolding first
server_there = refl

get_type-update_example :
    ((update_type in_memory 5 true "server" server_next "bob" worker).0
      ≡ ok (revised (3 + 1) 5 server_next "bob" server))
    × ((get_type in_memory 6 7 "server"
          (update_type in_memory 5 true "server" server_next "bob" worker).1).0
        ≡ some (revised (3 + 1) 5 server_next "bob" server))
get_type-update_example =
    get_type-update in_memory 6 7 5 server_next "bob" worker server server_low server_there

one_type : AreDistinct in_memory worker
unfolding any
one_type = (refl, tt)

get_type-deactivate_example :
    ((deactivate_type in_memory 5 "server" "bob" worker).0 ≡ ok tt)
    × ((get_type in_memory 6 7 "server" (deactivate_type in_memory 5 "server" "bob" worker).1).0
        ≡ none)
get_type-deactivate_example =
    get_type-deactivate in_memory 6 7 5 "server" "bob" worker server server_low one_type
      server_there

lookup-diff_example :
    lookup "host" (diff spell (host "a") (host "b")) ≡ change_at spell "host" (host "a") (host "b")
lookup-diff_example = lookup-diff spell (host "a") (host "b") "host"

-- ===== src/Relationships/Edges/Requests.antt =====
-- `create_edge` of cmdboss/graph.py from the request on: its type, the types of its ends and their ids.
use cmdboss.Prelude.{not, Option, none, some}
use cmdboss.Text.{lower}
use cmdboss.Errors.{Error}
use cmdboss.Errors.Result.{Result, ok, err, Exec, ◌>>=◌, ◌>>◌, guard}
use cmdboss.Documents.{Edge}
use cmdboss.Driver.{Driver}
use cmdboss.Store.{Store, Config, Readings, Caller}
use cmdboss.Repository.{parse_object_id}
use cmdboss.Relationships.{
  RelationshipTypeDefinition, allows, RelTypeDoc, RelRegistry, get_rel_type, valid_rel_name,
  valid_type_tokens,
}
use cmdboss.Relationships.Edges.{NewEdge, connect}

module _ (mongo : Driver) (cfg : Config mongo) where
  -- `create_edge` after `_rel_def`
  unfoldable pub create_typed :
      Readings → RelationshipTypeDefinition → NewEdge → Caller → Exec (Store mongo) Edge
  create_typed r d x caller = do
    let from_type = lower x.from_type
    let to_type = lower x.to_type
    guard (not (allows d.from_types from_type)) Error.bad_request
    guard (not (allows d.to_types to_type)) Error.bad_request
    f_oid ← parse_object_id mongo cfg x.from_id
    t_oid ← parse_object_id mongo cfg x.to_id
    connect mongo cfg r d (from_type, f_oid) (to_type, t_oid) x caller

  -- RelationshipTypeDefinition(**fields): the validators see the stored definition again
  unfoldable pub rel_definition : RelationshipTypeDefinition → Result RelationshipTypeDefinition
  rel_definition d = elim (valid_rel_name d.name) [
    | none ↦ err Error.invalid_model
    | some name ↦ elim (valid_type_tokens d.from_types) [
      | none ↦ err Error.invalid_model
      | some froms ↦ elim (valid_type_tokens d.to_types) [
        | none ↦ err Error.invalid_model
        | some tos ↦ ok (record d { name = name; from_types = froms; to_types = tos })
      ]
    ]
  ]

  -- `_rel_def`
  unfoldable pub rel_def : Option RelTypeDoc → Result RelationshipTypeDefinition
  rel_def none = err Error.not_found
  rel_def (some doc) = rel_definition doc.definition

  typed : Readings → NewEdge → Caller → Result RelationshipTypeDefinition → Exec (Store mongo) Edge
  typed r x caller (err e) s = (err e, s)
  typed r x caller (ok d) s = create_typed r d x caller s

  -- `create_edge`, on the database and the worker's registry of relationship types
  unfoldable pub create_edge :
      Readings → NewEdge → Caller → Exec (Store mongo × RelRegistry mongo) Edge
  unfolding typed
  create_edge r x caller (s, w) =
      let (doc, w') = get_rel_type mongo r.tick_1 r.tick_2 x.rel_type w in
      let (result, s') = typed r x caller (rel_def doc) s in (result, (s', w'))

-- ===== src/Http/Graph.antt =====
-- routers/graph.py: the routes of the relationships and of their types. What FastAPI refuses before
-- it calls a route is left out.
use cmdboss.Prelude.{
  ℕ, ◌≡◌, refl, String, Bool, false, Option, none, some, List, Dict, str_eq, if◌then◌else◌,
}
use cmdboss.Value.{Value, Number}
use cmdboss.Text.{strip}
use cmdboss.Errors.Result.{Result, ok, Exec, pure, lift, ◌>>=◌, ◌>>◌}
use cmdboss.Documents.{Edge, NodeRef}
use cmdboss.Driver.{Driver}
use cmdboss.Security.{Principal}
use cmdboss.Store.{Store, Config, Readings}
use cmdboss.Relationships.{
  RelationshipTypeDefinition, RelTypeDoc, RelRegistry, create_rel_type, list_rel_types,
  get_rel_type_strict, deactivate_rel_type,
}
use cmdboss.Relationships.Edges.Requests.{create_edge}
use cmdboss.Relationships.Edges.Removal.{get_edge, delete_edge}
use cmdboss.Relationships.Queries.{
  EdgeFilter, EdgePage, Analysis, list_edges, neighbors, dependencies, impact,
}
use cmdboss.Http.{caller_of, lstrip_quotes, rstrip_quotes, revision_of, parse_if_match}

-- a status and what the route returns
pub record Reply (A : Type 0) : Type 0 where
  pub status : ℕ
  pub content : A

abbrev pub reply : {A : Type 0} → ℕ → A → Reply A
reply status content = record { status = status; content = content }

-- `_parse_if_match` of this router
unfoldable pub parse_edge_if_match : Option String → Result (Option Number)
parse_edge_if_match none = ok none
parse_edge_if_match (some value) =
    if str_eq value "" then ok none else revision_of (rstrip_quotes (lstrip_quotes (strip value)))

-- it is that of the CIs' router where no header is required
pub parse_edge_if_match-eq :
    (value : Option String) → parse_edge_if_match value ≡ parse_if_match false value
unfolding parse_edge_if_match parse_if_match
parse_edge_if_match-eq none = refl
parse_edge_if_match-eq (some value) = refl

-- the body of a request for a relationship
pub record RelationshipCreate : Type 0 where
  pub rel_type : String
  pub from_ref : NodeRef
  pub to_ref : NodeRef
  pub attributes : Option (Dict Value)

-- `attributes or {}` is create_edge's
abbrev pub attributes_or_empty : Option (Dict Value) → Dict Value
attributes_or_empty none = List.[]
attributes_or_empty (some a) = a

module _ (mongo : Driver) where
  unfoldable pub create_rel_type_route :
      ℕ → ℕ → RelationshipTypeDefinition → Principal → Exec (RelRegistry mongo) (Reply RelTypeDoc)
  create_rel_type_route id at definition p = do
    doc ← create_rel_type mongo id at definition p.name
    pure (reply 201 doc)

  unfoldable pub list_rel_types_route :
      Bool → Principal → Exec (RelRegistry mongo) (Reply (List RelTypeDoc))
  list_rel_types_route include_inactive p w =
      (ok (reply 200 (list_rel_types mongo include_inactive w)), w)

  unfoldable pub get_rel_type_route :
      String → Principal → Exec (RelRegistry mongo) (Reply RelTypeDoc)
  get_rel_type_route name p = do
    doc ← (λ w. (get_rel_type_strict mongo name w, w))
    pure (reply 200 doc)

  unfoldable pub delete_rel_type_route :
      ℕ → String → Principal → Exec (RelRegistry mongo) (Reply (Unit {0}))
  delete_rel_type_route at name p = do deactivate_rel_type mongo at name p.name; pure (reply 204 tt)

module _ (mongo : Driver) (cfg : Config mongo) where
  unfoldable pub create_edge_route :
      Readings
      → Option ℕ
      → RelationshipCreate
      → Principal
      → Exec (Store mongo × RelRegistry mongo) (Reply Edge)
  create_edge_route r rid body p = do
    edge ←
        create_edge mongo cfg r
          (record {
            rel_type = body.rel_type;
            from_type = body.from_ref.type;
            from_id = body.from_ref.id;
            to_type = body.to_ref.type;
            to_id = body.to_ref.id;
            attributes = attributes_or_empty body.attributes;
            provenance = none;
          })
          (caller_of rid p)
    pure (reply 201 edge)

  unfoldable pub list_edges_route : EdgeFilter → Principal → Exec (Store mongo) (Reply EdgePage)
  list_edges_route q p = do page ← list_edges mongo cfg q; pure (reply 200 page)

  unfoldable pub get_edge_route : String → Principal → Exec (Store mongo) (Reply Edge)
  get_edge_route edge_id p = do edge ← get_edge mongo cfg edge_id; pure (reply 200 edge)

  unfoldable pub delete_edge_route :
      Readings
      → Option ℕ
      → String
      → Option String
      → Principal
      → Exec (Store mongo) (Reply (Unit {0}))
  delete_edge_route r rid edge_id if_match p = do
    expected ← lift (parse_edge_if_match if_match)
    delete_edge mongo cfg r edge_id expected (caller_of rid p)
    pure (reply 204 tt)

  unfoldable pub ci_neighbors :
      String → String → String → Option String → Principal → Exec (Store mongo) (Reply (List Edge))
  ci_neighbors type_name item_id direction rel_type p = do
    edges ← neighbors mongo cfg type_name item_id direction rel_type
    pure (reply 200 edges)

  unfoldable pub ci_dependencies : String → String → Principal → Exec (Store mongo) (Reply Analysis)
  ci_dependencies type_name item_id p = do
    found ← dependencies mongo cfg type_name item_id
    pure (reply 200 found)

  unfoldable pub ci_impact : String → String → Principal → Exec (Store mongo) (Reply Analysis)
  ci_impact type_name item_id p = do
    found ← impact mongo cfg type_name item_id
    pure (reply 200 found)

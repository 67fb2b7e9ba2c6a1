-- ===== src/Relationships.antt =====
-- cmdboss/graph_schema.py and the RelationshipRegistry of cmdboss/graph.py: the declared types of
-- relationship, with the cache of one worker.
pub mod Bfs
pub mod Edges
pub mod Queries
use cmdboss.Prelude.{
  ℕ, ◌+◌, String, Bool, true, false, ◌&&◌, ◌||◌, not, Option, none, some, List, [], ◌∷◌, Dict,
  lookup, insert, remove, any, length, str_eq, ltb, ◌==◌, if◌then◌else◌,
}
use cmdboss.Text.{lower, strip, matches_name, text_le}
use cmdboss.Errors.{Error}
use cmdboss.Errors.Result.{Result, ok, err}
use cmdboss.Driver.{Driver}

pub data Cardinality : Type 0 where
  one_to_one one_to_many many_to_one many_to_many : Cardinality

pub record RelationshipTypeDefinition : Type 0 where
  pub name : String
  pub description : Option String
  pub from_types : List String
  pub to_types : List String
  pub cardinality : Cardinality
  pub dependency : Bool
  pub inverse_name : Option String
  pub allow_self : Bool

-- ANY_TYPE
abbrev pub any_type : String
any_type = "*"

unfoldable pub allows : List String → String → Bool
allows types ci_type = any (str_eq any_type) types || any (str_eq ci_type) types

-- `_valid_name`: `none` is a ValueError
unfoldable pub valid_rel_name : String → Option String
valid_rel_name v = let v' = lower (strip v) in if matches_name v' then some v' else none

-- the loop of `_valid_type_tokens`
unfoldable pub cleaned_tokens : List String → Option (List String)
cleaned_tokens [] = some []
cleaned_tokens (t ∷ ts) =
    let rest = cleaned_tokens ts in
    let t' = lower (strip t) in
    if matches_name t' || str_eq t' any_type
    then elim rest [ none ↦ none | some cleaned ↦ some (t' ∷ cleaned) ]
    else none

alone : List String → Option (List String)
alone cleaned =
    if any (str_eq any_type) cleaned && ltb 1 (length cleaned) then none else some cleaned

-- `_valid_type_tokens`
unfoldable pub valid_type_tokens : List String → Option (List String)
unfolding alone
valid_type_tokens [] = none
valid_type_tokens (t ∷ ts) = elim (cleaned_tokens (t ∷ ts)) [
  | none ↦ none
  | some cleaned ↦ alone cleaned
]

-- a document of `_rel_types`
pub record RelTypeDoc : Type 0 where
  pub id : ℕ
  pub definition : RelationshipTypeDefinition
  pub active : Bool
  pub created_at : ℕ
  pub updated_at : ℕ
  pub created_by : String
  pub updated_by : String

-- the unique indexes of the collection: `_id` and the name
abbrev pub same_rel_type : RelTypeDoc → RelTypeDoc → Bool
same_rel_type a b = a.id == b.id || str_eq b.definition.name a.definition.name

-- {"name": name, "active": True}
abbrev pub rel_named : String → RelTypeDoc → Bool
rel_named name d = str_eq d.definition.name name && d.active

abbrev pub new_rel_type : ℕ → ℕ → RelationshipTypeDefinition → String → RelTypeDoc
new_rel_type id at d actor = record {
  id = id;
  definition = d;
  active = true;
  created_at = at;
  updated_at = at;
  created_by = actor;
  updated_by = actor;
}

abbrev pub deactivated_rel_type : ℕ → String → RelTypeDoc → RelTypeDoc
deactivated_rel_type at actor t = record t { active = false; updated_at = at; updated_by = actor }

module _ (mongo : Driver) where
  open mongo use {Coll, find_one, find_sorted, insert_one, update_one}

  pub record RelRegistry : Type 0 where
    pub rel_types : Coll RelTypeDoc
    pub rel_cache : Dict (ℕ × Option RelTypeDoc)
    pub rel_ttl : ℕ

  unfoldable pub invalidate_rel : String → RelRegistry → RelRegistry
  invalidate_rel name w = record w { rel_cache = remove name w.rel_cache }

  load_rel : ℕ → String → RelRegistry → Option RelTypeDoc × RelRegistry
  load_rel later name w =
      let doc = find_one (rel_named name) w.rel_types in
      (doc, record w { rel_cache = insert name (later + w.rel_ttl, doc) w.rel_cache })

  cached_rel :
      ℕ
      → ℕ
      → String
      → RelRegistry
      → Option (ℕ × Option RelTypeDoc)
      → Option RelTypeDoc × RelRegistry
  unfolding load_rel
  cached_rel now later name w none = load_rel later name w
  cached_rel now later name w (some (expires_at, doc)) =
      if ltb now expires_at then (doc, w) else load_rel later name w

  -- `get_type`: an expired entry is read again, and written over
  unfoldable pub get_rel_type : ℕ → ℕ → String → RelRegistry → Option RelTypeDoc × RelRegistry
  unfolding cached_rel
  get_rel_type now later name w =
      let key = lower name in cached_rel now later key w (lookup key w.rel_cache)

  unfoldable pub get_rel_type_strict : String → RelRegistry → Result RelTypeDoc
  get_rel_type_strict name w = elim (find_one (rel_named (lower name)) w.rel_types) [
    | none ↦ err Error.not_found
    | some doc ↦ ok doc
  ]

  unfoldable pub list_rel_types : Bool → RelRegistry → List RelTypeDoc
  list_rel_types include_inactive w =
      find_sorted (λ a b. text_le a.definition.name b.definition.name) 0 0
        (λ d. include_inactive || d.active) w.rel_types

  unfoldable pub create_rel_type :
      ℕ → ℕ → RelationshipTypeDefinition → String → RelRegistry → Result RelTypeDoc × RelRegistry
  create_rel_type id at d actor w =
      let doc = new_rel_type id at d actor in
      elim (insert_one same_rel_type doc w.rel_types) [
        | none ↦ (err Error.conflict, w)
        | some types ↦ (ok doc, invalidate_rel d.name (record w { rel_types = types }))
      ]

  -- `deactivate_type`: the cache is invalidated under the name as it was given
  unfoldable pub deactivate_rel_type :
      ℕ → String → String → RelRegistry → Result (Unit {0}) × RelRegistry
  deactivate_rel_type at name actor w = elim (find_one (rel_named (lower name)) w.rel_types) [
    | none ↦ (err Error.not_found, w)
    | some _ ↦ (
      ok tt,
      invalidate_rel name (record w {
        rel_types = update_one (rel_named (lower name)) (deactivated_rel_type at actor) w.rel_types;
      }),
    )
  ]

-- ===== src/Documents.antt =====
-- The documents that the collections hold and their serialised forms. A `uuid4().hex` is the number
-- that it spells, a timestamp is a count of microseconds. Serialising a document keeps the
-- timestamps of `_meta` (their ISO text is one to one) and turns `_id` into its text.
use cmdboss.Prelude.{ℕ, String, Bool, Option, map, Dict}
use cmdboss.Value.{Value, Spelling, jsonable}

-- repository.py, `prov` of apply_discovery and the fields that mark_missing sets, which may set the
-- status of a CI that was made by hand
pub record Provenance : Type 0 where
  pub source : Option String
  pub external_id : Option String
  pub discovery_run_id : Option ℕ
  pub last_seen : Option ℕ
  pub discovery_status : String
  pub missing_run_id : Option ℕ

-- `_meta` of a CI
pub record Meta : Type 0 where
  pub type : String
  pub revision : ℕ
  pub schema_version : ℕ
  pub created_at : ℕ
  pub updated_at : ℕ
  pub created_by : String
  pub updated_by : String
  pub provenance : Option Provenance

-- a document of `ci_<type>`
pub record CiDoc : Type 0 where
  pub id : ℕ
  pub fields : Dict Value
  pub meta : Meta

-- the dict that `_serialize` returns
pub record Item : Type 0 where
  pub id : String
  pub fields : Dict Value
  pub meta : Meta

-- repository._serialize
unfoldable pub serialize : Spelling → CiDoc → Item
serialize spell doc = record {
  id = spell.id_text doc.id;
  fields = map (λ (k, v). (k, jsonable spell v)) doc.fields;
  meta = doc.meta;
}

-- `_meta` of an edge, with the provenance that the reconciler adds
pub record EdgeMeta : Type 0 where
  pub revision : ℕ
  pub created_at : ℕ
  pub updated_at : ℕ
  pub created_by : String
  pub updated_by : String
  pub provenance : Option (String × ℕ)

-- a document of `_relationships`
pub record EdgeDoc : Type 0 where
  pub id : ℕ
  pub rel_type : String
  pub dependency : Bool
  pub from_type : String
  pub from_id : ℕ
  pub to_type : String
  pub to_id : ℕ
  pub attributes : Dict Value
  pub meta : EdgeMeta

pub record NodeRef : Type 0 where
  pub type : String
  pub id : String

-- the dict that `_serialize_edge` returns
pub record Edge : Type 0 where
  pub id : String
  pub rel_type : String
  pub dependency : Bool
  pub source : NodeRef
  pub target : NodeRef
  pub attributes : Dict Value
  pub meta : EdgeMeta

-- graph._serialize_edge
unfoldable pub serialize_edge : Spelling → EdgeDoc → Edge
serialize_edge spell edge = record {
  id = spell.id_text edge.id;
  rel_type = edge.rel_type;
  dependency = edge.dependency;
  source = record { type = edge.from_type; id = spell.id_text edge.from_id };
  target = record { type = edge.to_type; id = spell.id_text edge.to_id };
  attributes = edge.attributes;
  meta = edge.meta;
}

-- what an event and an audit record carry
pub data Payload : Type 0 where
  item : Item → Payload
  edge : Edge → Payload

-- events.Event
pub record Event : Type 0 where
  pub id : ℕ
  pub type : String
  pub entity_type : String
  pub entity_id : String
  pub actor : String
  pub ts : ℕ
  pub payload : Payload

-- ===== src/Audit.antt =====
-- cmdboss/audit.py: the append-only log of changes.
pub mod Changes
use cmdboss.Prelude.{
  ℕ, String, Bool, true, false, ◌&&◌, ◌||◌, not, Option, none, some, List, [], ◌∷◌, ◌++◌, map, any,
  select, Dict, lookup, str_eq, ◌==◌, leb, if◌then◌else◌,
}
use cmdboss.Value.{Value, Spelling, jsonable, value_eq}
use cmdboss.Documents.{Item, Payload}
use cmdboss.Errors.{Error}
use cmdboss.Errors.Result.{Result, ok, err}
use cmdboss.Driver.{Driver}

pub data Action : Type 0 where
  create update delete : Action

-- {"from": …, "to": …}
pub record Change : Type 0 where
  pub before : Value
  pub after : Value

pub record AuditDoc : Type 0 where
  pub id : ℕ
  pub ts : ℕ
  pub action : Action
  pub entity_type : String
  pub entity_id : String
  pub actor : String
  pub schema_version : Option ℕ
  pub revision : Option ℕ
  pub request_id : Option ℕ
  pub before : Option Payload
  pub after : Option Payload
  pub changes : Dict Change

-- d.get(k), which is None for a key that is not there
abbrev pub value_at : String → Dict Value → Value
value_at k d = elim (lookup k d) [ none ↦ Value.null | some v ↦ v ]

abbrev pub keys {ℓ} : {V : Type ℓ} → Dict V → List String
keys = map (λ e. e.0)

-- set(before) | set(after), each key once
unfoldable pub all_keys : List String → List String → List String
all_keys xs ys = xs ++ select (λ k. not (any (str_eq k) xs)) ys

module _ (spell : Spelling) where
  -- the loop of `_diff`; "_meta" and "id" are no keys of an item's own fields but may be spelled
  -- like them
  unfoldable pub diff_keys : Dict Value → Dict Value → List String → Dict Change
  diff_keys before after [] = []
  diff_keys before after (k ∷ ks) =
      let rest = diff_keys before after ks in
      let b = value_at k before in
      let a = value_at k after in
      if (str_eq k "_meta" || str_eq k "id") || value_eq b a
      then rest
      else (k, record { before = jsonable spell b; after = jsonable spell a }) ∷ rest

  -- `_diff` on the fields of two items
  unfoldable pub diff : Dict Value → Dict Value → Dict Change
  diff before after = diff_keys before after (all_keys (keys before) (keys after))

  -- `_diff(before, after) if action == "update" else {}`: both sides of an update are items
  unfoldable pub changes : Action → Option Payload → Option Payload → Dict Change
  changes Action.update (some (Payload.item b)) (some (Payload.item a)) = diff b.fields a.fields
  changes _ _ _ = []

-- what a call of `record` is given
pub record Entry : Type 0 where
  pub action : Action
  pub entity_type : String
  pub entity_id : String
  pub actor : String
  pub before : Option Payload
  pub after : Option Payload
  pub schema_version : Option ℕ
  pub revision : Option ℕ
  pub request_id : Option ℕ

abbrev pub same_id : AuditDoc → AuditDoc → Bool
same_id a b = a.id == b.id

-- the document that `record` inserts, under a fresh uuid and at the time of the call
unfoldable pub entry_doc : Spelling → ℕ → ℕ → Entry → AuditDoc
entry_doc spell id ts e = record {
  id = id;
  ts = ts;
  action = e.action;
  entity_type = e.entity_type;
  entity_id = e.entity_id;
  actor = e.actor;
  schema_version = e.schema_version;
  revision = e.revision;
  request_id = e.request_id;
  before = e.before;
  after = e.after;
  changes = changes spell e.action e.before e.after;
}

module _ (mongo : Driver) where
  -- `record`: an exception of the insert is passed on
  unfoldable pub append :
      Spelling → ℕ → ℕ → Entry → mongo.Coll AuditDoc → Result (mongo.Coll AuditDoc)
  append spell id ts e c = elim (mongo.insert_one same_id (entry_doc spell id ts e) c) [
    | none ↦ err Error.duplicate_key
    | some c' ↦ ok c'
  ]

  -- newest first
  unfoldable pub list_for : String → String → ℕ → mongo.Coll AuditDoc → List AuditDoc
  list_for entity_type entity_id limit =
      mongo.find_sorted (λ a b. leb b.ts a.ts) 0 limit
        (λ d. str_eq d.entity_type entity_type && str_eq d.entity_id entity_id)

-- ===== src/Repository/Discovery.antt =====
-- `apply_discovery` of CIRepository in cmdboss/repository.py, its reads for discovery, and `history`.
pub mod Unchanged
use cmdboss.Prelude.{
  ℕ, ◌+◌, String, Bool, true, false, ◌&&◌, Option, none, some, List, [], ◌∷◌, Dict, merge, insert,
  str_eq, if◌then◌else◌,
}
use cmdboss.Errors.{Error}
use cmdboss.Schema.Compile.{opt_map}
use cmdboss.Errors.Result.{Result, ok, err, Exec, pure, ◌>>=◌, ◌>>◌, transaction}
use cmdboss.Value.{Value, Fields, value_eq}
use cmdboss.Documents.{CiDoc, Item, Meta, Provenance, Payload, serialize}
use cmdboss.Driver.{Driver}
use cmdboss.Audit
use cmdboss.Audit.{Action, AuditDoc, Entry}
use cmdboss.Registry.{TypeDoc}
use cmdboss.Store.{Store, Config, Readings, spelling, put_cis, record_audit, event_of, emit}
use cmdboss.Repository.{has_id, type_doc, compiled, validated}
use cmdboss.Repository.Create.{insert_ci}

-- the second component of the result
pub data Applied : Type 0 where
  created updated unchanged : Applied

-- where a discovered CI comes from
pub record Origin : Type 0 where
  pub source : String
  pub external_id : String
  pub run_id : ℕ

-- `prov`
abbrev pub provenance_of : Readings → Origin → Option ℕ → Provenance
provenance_of r o missing_run_id = record {
  source = some o.source;
  external_id = some o.external_id;
  discovery_run_id = some o.run_id;
  last_seen = some r.now;
  discovery_status = "present";
  missing_run_id = missing_run_id;
}

-- a query for a text at a field that may be missing
abbrev pub field_is : String → Option String → Bool
field_is text none = false
field_is text (some t) = str_eq t text

-- {"_meta.source": source, "_meta.external_id": external_id}
unfoldable pub comes_from : Origin → CiDoc → Bool
comes_from o d = elim d.meta.provenance [
  | none ↦ false
  | some p ↦ field_is o.source p.source && field_is o.external_id p.external_id
]

-- the `$set` of the provenance keeps the run in which a CI went missing
unfoldable pub seen : Readings → Origin → Option Provenance → Option Provenance
seen r o none = some (provenance_of r o none)
seen r o (some p) = some (provenance_of r o p.missing_run_id)

unfoldable pub touched : Readings → Origin → CiDoc → CiDoc
touched r o d = record d { meta = record d.meta { provenance = seen r o d.meta.provenance } }

abbrev pub discovered : Readings → String → TypeDoc → Origin → String → Dict Value → CiDoc
discovered r type_name t o actor fields = record {
  id = r.oid;
  fields = fields;
  meta = record {
    type = type_name;
    revision = 1;
    schema_version = t.version;
    created_at = r.now;
    updated_at = r.now;
    created_by = actor;
    updated_by = actor;
    provenance = some (provenance_of r o none);
  };
}

abbrev pub rediscovered : Readings → TypeDoc → Origin → String → ℕ → Dict Value → CiDoc → CiDoc
rediscovered r t o actor revision validated d = record d {
  fields = merge d.fields validated;
  meta = record d.meta {
    updated_at = r.now;
    updated_by = actor;
    schema_version = t.version;
    revision = revision;
    provenance = seen r o d.meta.provenance;
  };
}

-- the dicts of validated fields as values, for Python's `==` on them
unfoldable pub object_of : Dict Value → Fields
object_of [] = Fields.end
object_of ((k, v) ∷ d) = Fields.field k v (object_of d)

unfoldable pub same_fields : Dict Value → Dict Value → Bool
same_fields a b = value_eq (Value.object (object_of a)) (Value.object (object_of b))

module _ (mongo : Driver) (cfg : Config mongo) where
  -- the record of a discovered CI, or of a change of one, in the log
  abbrev pub discovery_entry :
      Action → String → String → TypeDoc → Origin → String → Option Item → Item → ℕ → Entry
  discovery_entry action type_name id t o actor before after revision = record {
    action = action;
    entity_type = type_name;
    entity_id = id;
    actor = actor;
    before = opt_map Payload.item before;
    after = some (Payload.item after);
    schema_version = some t.version;
    revision = some revision;
    request_id = some o.run_id;
  }

  -- `existing is None`
  unfoldable pub apply_new :
      Readings
      → String
      → TypeDoc
      → (Dict Value → Exec (Store mongo) (Dict Value))
      → Dict Value
      → Origin
      → String
      → Exec (Store mongo) (String × Applied)
  apply_new r type_name t check data' o actor = do
    fields ← check data'
    let doc = discovered r type_name t o actor fields
    insert_ci mongo cfg type_name doc
    let item = serialize (spelling mongo cfg) doc
    record_audit mongo cfg r (discovery_entry Action.create type_name item.id t o actor none item 1)
    emit mongo r (event_of mongo r "ci.created" type_name item.id actor (Payload.item item))
    pure (item.id, Applied.created)

  -- the unique indexes of the collection may refuse the update
  rewritten : String → CiDoc → Option (mongo.Coll CiDoc) → Store mongo → Result CiDoc × Store mongo
  rewritten type_name d none s = (err Error.duplicate_key, s)
  rewritten type_name d (some c) s = (ok d, put_cis mongo type_name c s)

  -- `coll.find_one_and_update({"_id": …}, …, return_document=AFTER)` on a document that was just found
  unfoldable pub rewrite : String → CiDoc → (CiDoc → CiDoc) → Exec (Store mongo) CiDoc
  unfolding rewritten
  rewrite type_name d f s =
      rewritten type_name (f d)
        (mongo.update_unique (cfg.same_ci type_name) (has_id d.id) f (s.cis type_name)) s

  -- `coll.update_one({"_id": …}, {"$set": prov})`
  unfoldable pub refresh :
      Readings → String → Origin → CiDoc → Exec (Store mongo) (String × Applied)
  refresh r type_name o d = do
    _ ← rewrite type_name d (touched r o)
    pure (mongo.id_text d.id, Applied.unchanged)

  unfoldable pub write_changes :
      Readings
      → String
      → TypeDoc
      → Dict Value
      → Origin
      → String
      → CiDoc
      → Exec (Store mongo) (String × Applied)
  write_changes r type_name t fields o actor d = do
    let before = serialize (spelling mongo cfg) d
    let revision = d.meta.revision + 1
    current ← rewrite type_name d (rediscovered r t o actor revision fields)
    let after = serialize (spelling mongo cfg) current
    record_audit mongo cfg r
        (discovery_entry Action.update type_name after.id t o actor (some before) after revision)
    emit mongo r (event_of mongo r "ci.updated" type_name after.id actor (Payload.item after))
    pure (after.id, Applied.updated)

  -- an existing CI: only a difference of the validated fields is a change
  unfoldable pub apply_existing :
      Readings
      → String
      → TypeDoc
      → (Dict Value → Exec (Store mongo) (Dict Value))
      → Dict Value
      → Origin
      → String
      → CiDoc
      → Exec (Store mongo) (String × Applied)
  apply_existing r type_name t check data' o actor d = do
    fields ← check (merge d.fields data')
    normal ← check d.fields
    (λ s.
        if same_fields fields normal
        then refresh r type_name o d s
        else write_changes r type_name t fields o actor d s)

  unfoldable pub apply_body :
      Readings
      → String
      → TypeDoc
      → (Dict Value → Exec (Store mongo) (Dict Value))
      → Dict Value
      → Origin
      → String
      → Exec (Store mongo) (String × Applied)
  apply_body r type_name t check data' o actor s =
      elim (mongo.find_one (comes_from o) (s.cis type_name)) [
        | none ↦ apply_new r type_name t check data' o actor s
        | some d ↦ apply_existing r type_name t check data' o actor d s
      ]

  unfoldable pub apply_discovery :
      Readings → String → Dict Value → Origin → String → Exec (Store mongo) (String × Applied)
  apply_discovery r type_name data' o actor = do
    t ← type_doc mongo cfg r type_name
    model ← compiled mongo cfg r type_name
    transaction cfg.txn_enabled (apply_body r type_name t (validated mongo cfg model) data' o actor)

  -- `out[ext] = str(d["_id"])`, if `ext is not None`
  unfoldable pub keep_id : CiDoc → Option Provenance → Dict String → Dict String
  keep_id d none out = out
  keep_id d (some p) out = elim p.external_id [
    | none ↦ out
    | some ext ↦ insert ext (mongo.id_text d.id) out
  ]

  -- the loop of `iter_source`: a later CI of the same external id replaces an earlier one
  unfoldable pub collect_ids : List CiDoc → Dict String → Dict String
  unfolding keep_id
  collect_ids [] out = out
  collect_ids (d ∷ ds) out = collect_ids ds (keep_id d d.meta.provenance out)

  -- {"_meta.source": source}
  unfoldable pub of_source : String → CiDoc → Bool
  of_source source d = elim d.meta.provenance [ none ↦ false | some p ↦ field_is source p.source ]

  unfoldable pub iter_source : String → String → Store mongo → Dict String
  iter_source type_name source s = collect_ids (mongo.find (of_source source) (s.cis type_name)) []

  -- `history`
  unfoldable pub history : Readings → String → String → ℕ → Exec (Store mongo) (List AuditDoc)
  history r type_name item_id limit = do
    _ ← type_doc mongo cfg r type_name
    (λ s. (ok (Audit.list_for mongo type_name item_id limit s.audit), s))

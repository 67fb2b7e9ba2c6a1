-- ===== src/Repository/Update.antt =====
-- `update` of CIRepository: a replacement or a patch under a compare-and-swap on the revision.
pub mod Cas
pub mod Revisions
pub mod Returns
use cmdboss.Prelude.{
  ℕ, ◌+◌, String, Bool, true, false, ◌&&◌, Option, none, some, Dict, merge, ◌==◌, if◌then◌else◌,
}
use cmdboss.Errors.{Error}
use cmdboss.Errors.Result.{Result, ok, err, Exec, pure, raise, or_raise, ◌>>=◌, ◌>>◌, transaction}
use cmdboss.Value.{Value, Number}
use cmdboss.Documents.{CiDoc, Item, Meta, Payload, serialize}
use cmdboss.Driver.{Driver}
use cmdboss.Audit.{Action}
use cmdboss.Registry.{TypeDoc}
use cmdboss.Store.{Store, Config, Readings, Caller, spelling, put_cis, record_audit, event_of, emit}
use cmdboss.Repository.{
  has_id, is_revision, type_doc, compiled, validated, parse_object_id, existing,
}

-- {"_id": oid, "_meta.revision": expected_revision}: no revision is equal to None
abbrev pub at_revision : ℕ → Option Number → CiDoc → Bool
at_revision oid none d = false
at_revision oid (some n) d = has_id oid d && is_revision n d.meta.revision

-- the `$set`: the fields of `data` are set one by one
abbrev pub edited : Readings → String → ℕ → ℕ → Dict Value → CiDoc → CiDoc
edited r actor schema_version revision data' d = record d {
  fields = merge d.fields data';
  meta = record d.meta {
    updated_at = r.now;
    updated_by = actor;
    schema_version = schema_version;
    revision = revision;
  };
}

module _ (mongo : Driver) (cfg : Config mongo) where
  -- why the swap found nothing
  missed : String → ℕ → Option Number → Exec (Store mongo) CiDoc
  missed type_name oid expected s = elim (mongo.find_one (has_id oid) (s.cis type_name)) [
    | none ↦ (err Error.not_found, s)
    | some current ↦ (err (Error.precondition_failed expected current.meta.revision), s)
  ]

  -- the unique indexes of the collection may refuse the edit
  swapped : String → CiDoc → Option (mongo.Coll CiDoc) → Store mongo → Result CiDoc × Store mongo
  swapped type_name d none s = (err Error.duplicate_key, s)
  swapped type_name d (some c) s = (ok d, put_cis mongo type_name c s)

  -- `find_one_and_update(…, return_document=AFTER)`
  unfoldable pub swap : String → ℕ → Option Number → (CiDoc → CiDoc) → Exec (Store mongo) CiDoc
  unfolding missed swapped
  swap type_name oid expected f s =
      elim (mongo.find_one (at_revision oid expected) (s.cis type_name)) [
        | none ↦ missed type_name oid expected s
        | some d ↦
            swapped type_name (f d)
              (mongo.update_unique (cfg.same_ci type_name) (at_revision oid expected) f
                (s.cis type_name))
              s
      ]

  unfoldable pub update_body :
      Readings
      → String
      → String
      → ℕ
      → TypeDoc
      → (Dict Value → Exec (Store mongo) (Dict Value))
      → Dict Value
      → Option Number
      → Bool
      → Caller
      → Exec (Store mongo) Item
  update_body r type_name item_id oid t check payload expected partial caller = do
    old ← existing mongo cfg type_name oid
    let before = serialize (spelling mongo cfg) old
    data' ← check (if partial then merge old.fields payload else payload)
    let revision = old.meta.revision + 1
    updated ← swap type_name oid expected (edited r caller.actor t.version revision data')
    let after = serialize (spelling mongo cfg) updated
    record_audit mongo cfg r (record {
      action = Action.update;
      entity_type = type_name;
      entity_id = item_id;
      actor = caller.actor;
      before = some (Payload.item before);
      after = some (Payload.item after);
      schema_version = some t.version;
      revision = some revision;
      request_id = caller.request_id;
    })
    emit mongo r (event_of mongo r "ci.updated" type_name item_id caller.actor (Payload.item after))
    pure after

  unfoldable pub update :
      Readings
      → String
      → String
      → Dict Value
      → Option Number
      → Bool
      → Caller
      → Exec (Store mongo) Item
  update r type_name item_id payload expected partial caller = do
    t ← type_doc mongo cfg r type_name
    model ← compiled mongo cfg r type_name
    oid ← parse_object_id mongo cfg item_id
    transaction cfg.txn_enabled (
        update_body r type_name item_id oid t (validated mongo cfg model) payload expected partial
          caller)

-- ===== src/Repository/Missing.antt =====
-- `mark_missing` of CIRepository in cmdboss/repository.py.
use cmdboss.Prelude.{ℕ, ◌+◌, String, Option, none, some}
use cmdboss.Errors.Result.{ok, Exec, ◌>>=◌, ◌>>◌, transaction}
use cmdboss.Documents.{CiDoc, Provenance, Payload, serialize}
use cmdboss.Driver.{Driver}
use cmdboss.Audit.{Action}
use cmdboss.Store.{Store, Config, Readings, spelling, record_audit, event_of, emit}
use cmdboss.Repository.{has_id, parse_object_id}
use cmdboss.Repository.Discovery.{rewrite}

-- the `$set` of `discovery_status` and `missing_run_id`
unfoldable pub missing_since : ℕ → Option Provenance → Provenance
missing_since run_id none = record {
  source = none;
  external_id = none;
  discovery_run_id = none;
  last_seen = none;
  discovery_status = "missing";
  missing_run_id = some run_id;
}
missing_since run_id (some p) = record p {
  discovery_status = "missing";
  missing_run_id = some run_id;
}

unfoldable pub missed_at : Readings → ℕ → String → ℕ → CiDoc → CiDoc
missed_at r run_id actor revision d = record d {
  meta = record d.meta {
    updated_at = r.now;
    updated_by = actor;
    revision = revision;
    provenance = some (missing_since run_id d.meta.provenance);
  };
}

module _ (mongo : Driver) (cfg : Config mongo) where
  -- the body of the transaction where the CI is found
  unfoldable pub write_missing :
      Readings → String → String → ℕ → String → CiDoc → Exec (Store mongo) (Unit {0})
  write_missing r type_name item_id run_id actor d = do
    let before = serialize (spelling mongo cfg) d
    let revision = d.meta.revision + 1
    current ← rewrite mongo cfg type_name d (missed_at r run_id actor revision)
    let after = serialize (spelling mongo cfg) current
    record_audit mongo cfg r (record {
      action = Action.update;
      entity_type = type_name;
      entity_id = item_id;
      actor = actor;
      before = some (Payload.item before);
      after = some (Payload.item after);
      schema_version = none;
      revision = some revision;
      request_id = some run_id;
    })
    emit mongo r (event_of mongo r "ci.missing" type_name item_id actor (Payload.item after))

  -- `if existing is None: return`
  unfoldable pub missing_body :
      Readings → String → String → ℕ → ℕ → String → Exec (Store mongo) (Unit {0})
  missing_body r type_name item_id oid run_id actor s =
      elim (mongo.find_one (has_id oid) (s.cis type_name)) [
        | none ↦ (ok tt, s)
        | some d ↦ write_missing r type_name item_id run_id actor d s
      ]

  unfoldable pub mark_missing :
      Readings → String → String → ℕ → String → Exec (Store mongo) (Unit {0})
  mark_missing r type_name item_id run_id actor = do
    oid ← parse_object_id mongo cfg item_id
    transaction cfg.txn_enabled (missing_body r type_name item_id oid run_id actor)

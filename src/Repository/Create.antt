-- ===== src/Repository/Create.antt =====
-- `create` of CIRepository with its Idempotency-Key.
pub mod Effects
pub mod Atomic
pub mod Replay
pub mod Returns
use cmdboss.Prelude.{
  ℕ, String, Bool, true, false, ◌&&◌, not, Option, none, some, Dict, str_eq, if◌then◌else◌,
}
use cmdboss.Errors.{Error}
use cmdboss.Errors.Result.{
  Result, ok, err, Exec, pure, raise, or_raise, ◌>>=◌, ◌>>◌, transaction, on_error,
}
use cmdboss.Value.{Value}
use cmdboss.Documents.{CiDoc, Item, Meta, Payload, serialize}
use cmdboss.Driver.{Driver}
use cmdboss.Audit.{Action}
use cmdboss.Idempotency
use cmdboss.Idempotency.{IdempotencyDoc, Status}
use cmdboss.Registry.{TypeDoc}
use cmdboss.Store.{Store, Config, Readings, Caller, spelling, put_cis, record_audit, event_of, emit}
use cmdboss.Repository.{type_doc, compiled, validated}

-- `data` with its `_meta` and the id that the driver generates
abbrev pub new_ci : Readings → String → TypeDoc → String → Dict Value → CiDoc
new_ci r type_name t actor fields = record {
  id = r.oid;
  fields = fields;
  meta = record {
    type = type_name;
    revision = 1;
    schema_version = t.version;
    created_at = r.now;
    updated_at = r.now;
    created_by = actor;
    updated_by = actor;
    provenance = none;
  };
}

module _ (mongo : Driver) (cfg : Config mongo) where
  -- `coll.insert_one(data)`
  unfoldable pub insert_ci : String → CiDoc → Exec (Store mongo) (Unit {0})
  insert_ci type_name doc s =
      elim (mongo.insert_one (cfg.same_ci type_name) doc (s.cis type_name)) [
        | none ↦ (err Error.duplicate_key, s)
        | some c ↦ (ok tt, put_cis mongo type_name c s)
      ]

  -- a stored response to replay, or the key is in use
  replay_or_busy : Option IdempotencyDoc → Result (Option Item)
  replay_or_busy none = err (Error.conflict_as "idempotency_in_progress")
  replay_or_busy (some rec) = elim rec.status [
    | Status.done ↦ ok rec.response
    | Status.pending ↦ err (Error.conflict_as "idempotency_in_progress")
  ]

  claimed : Readings → String → String → Store mongo → Result (Option Item) × Store mongo
  unfolding replay_or_busy
  claimed r scope key s = elim (Idempotency.claim mongo r.claimed_at scope key s.idempotency) [
    | some c ↦ (ok none, record s { idempotency = c })
    | none ↦ (replay_or_busy (Idempotency.get mongo scope key s.idempotency), s)
  ]

  -- `_idempotency_precheck`: `none` in a result means that the key is now claimed
  unfoldable pub idempotency_precheck :
      Readings → String → String → Exec (Store mongo) (Option Item)
  unfolding claimed
  idempotency_precheck r scope key s = elim (Idempotency.get mongo scope key s.idempotency) [
    | some rec ↦ (replay_or_busy (some rec), s)
    | none ↦ claimed r scope key s
  ]

  -- `if use_idem: store_result(…)`
  store_response : Readings → String → Option String → Item → Exec (Store mongo) (Unit {0})
  store_response r scope none item s = (ok tt, s)
  store_response r scope (some key) item s = (
    ok tt,
    record s {
      idempotency = Idempotency.store_result mongo r.completed_at scope key item s.idempotency;
    },
  )

  -- `if use_idem: release(…)`
  release_key : String → Option String → Store mongo → Store mongo
  release_key scope none s = s
  release_key scope (some key) s = record s {
    idempotency = Idempotency.release mongo scope key s.idempotency;
  }

  -- the body of the transaction
  unfoldable pub create_body :
      Readings → String → CiDoc → Caller → Option String → Exec (Store mongo) Item
  unfolding store_response
  create_body r type_name doc caller idem = do
    insert_ci type_name doc
    let item = serialize (spelling mongo cfg) doc
    record_audit mongo cfg r (record {
      action = Action.create;
      entity_type = type_name;
      entity_id = item.id;
      actor = caller.actor;
      before = none;
      after = some (Payload.item item);
      schema_version = some doc.meta.schema_version;
      revision = some 1;
      request_id = caller.request_id;
    })
    emit mongo r (event_of mongo r "ci.created" type_name item.id caller.actor (Payload.item item))
    store_response r type_name idem item
    pure item

  -- the transaction, and the release of the key where it raises
  unfoldable pub create_write :
      Readings → String → CiDoc → Caller → Option String → Exec (Store mongo) Item
  unfolding release_key
  create_write r type_name doc caller idem =
      on_error (release_key type_name idem)
        (transaction cfg.txn_enabled (create_body r type_name doc caller idem))

  -- `use_idem`: a key that is not empty, where keys are enabled
  unfoldable pub idem_key : Option String → Option String
  idem_key none = none
  idem_key (some key) = if cfg.idempotency_enabled && not (str_eq key "") then some key else none

  pub precheck : Readings → String → Option String → Exec (Store mongo) (Option Item)
  precheck r type_name none s = (ok none, s)
  precheck r type_name (some key) s = idempotency_precheck r type_name key s

  -- `if replay is not None: return replay`
  pub replay_or_write :
      Readings → String → CiDoc → Caller → Option String → Option Item → Exec (Store mongo) Item
  replay_or_write r type_name doc caller idem (some item) = pure item
  replay_or_write r type_name doc caller idem none = create_write r type_name doc caller idem

  unfoldable pub create :
      Readings → String → Dict Value → Caller → Option String → Exec (Store mongo) Item
  unfolding precheck replay_or_write
  create r type_name payload caller idempotency_key = do
    t ← type_doc mongo cfg r type_name
    model ← compiled mongo cfg r type_name
    fields ← validated mongo cfg model payload
    let idem = idem_key idempotency_key
    replay ← precheck r type_name idem
    replay_or_write r type_name (new_ci r type_name t caller.actor fields) caller idem replay

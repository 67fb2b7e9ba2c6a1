-- ===== src/Repository/Delete.antt =====
-- `delete` of CIRepository, with the guard on relationships.
pub mod Guarded
pub mod Atomic
use cmdboss.Prelude.{
  ℕ, String, Bool, true, false, ◌&&◌, not, Option, none, some, ◌==◌, ltb, if◌then◌else◌,
}
use cmdboss.Value.{Number}
use cmdboss.Errors.{Error}
use cmdboss.Errors.Result.{Result, ok, err, Exec, pure, raise, ◌>>=◌, ◌>>◌, transaction, guard}
use cmdboss.Documents.{CiDoc, Item, Payload, serialize}
use cmdboss.Driver.{Driver}
use cmdboss.Audit.{Action}
use cmdboss.Store.{Store, Config, Readings, Caller, spelling, put_cis, record_audit, event_of, emit}
use cmdboss.Repository.{has_id, is_revision, type_doc, parse_object_id, existing}
use cmdboss.Repository.Guard.{Guard}

module _ (mongo : Driver) (cfg : Config mongo) where
  -- `if expected_revision is not None` and the revision differs
  unfoldable pub check_revision : Option Number → CiDoc → Exec (Store mongo) (Unit {0})
  check_revision none d s = (ok tt, s)
  check_revision (some n) d s =
      if is_revision n d.meta.revision
      then (ok tt, s)
      else (err (Error.precondition_failed (some n) d.meta.revision), s)

  detached : Guard mongo → String → ℕ → Bool → Caller → ℕ → Exec (Store mongo) (Unit {0})
  detached g type_name oid detach caller count =
      if ltb 0 count
      then if detach
        then (do _ ← g.detach_ci type_name oid caller; pure tt)
        else raise (Error.conflict_as "has_relationships")
      else pure tt

  -- `if self._rel_guard is not None`
  unfoldable pub check_edges :
      Option (Guard mongo) → String → ℕ → Bool → Caller → Exec (Store mongo) (Unit {0})
  unfolding detached
  check_edges none type_name oid detach caller s = (ok tt, s)
  check_edges (some g) type_name oid detach caller s =
      detached g type_name oid detach caller (g.count_edges type_name oid s) s

  -- `coll.delete_one({"_id": oid})`
  unfoldable pub delete_ci : String → ℕ → Exec (Store mongo) (Unit {0})
  delete_ci type_name oid s =
      (ok tt, put_cis mongo type_name (mongo.delete_one (has_id oid) (s.cis type_name)) s)

  unfoldable pub delete_body :
      Option (Guard mongo)
      → Readings
      → String
      → String
      → ℕ
      → Option Number
      → Caller
      → Bool
      → Exec (Store mongo) (Unit {0})
  delete_body g r type_name item_id oid expected caller detach = do
    old ← existing mongo cfg type_name oid
    check_revision expected old
    check_edges g type_name oid detach caller
    let before = serialize (spelling mongo cfg) old
    delete_ci type_name oid
    record_audit mongo cfg r (record {
      action = Action.delete;
      entity_type = type_name;
      entity_id = item_id;
      actor = caller.actor;
      before = some (Payload.item before);
      after = none;
      schema_version = some old.meta.schema_version;
      revision = some old.meta.revision;
      request_id = caller.request_id;
    })
    emit mongo r
        (event_of mongo r "ci.deleted" type_name item_id caller.actor (Payload.item before))

  unfoldable pub delete :
      Option (Guard mongo)
      → Readings
      → String
      → String
      → Option Number
      → Caller
      → Bool
      → Exec (Store mongo) (Unit {0})
  delete g r type_name item_id expected caller detach = do
    _ ← type_doc mongo cfg r type_name
    oid ← parse_object_id mongo cfg item_id
    transaction cfg.txn_enabled (delete_body g r type_name item_id oid expected caller detach)

-- ===== src/Repository/Update/Returns.antt =====
-- When an `update` returns.
use cmdboss.Prelude.{
  clashes, false, ℕ, ◌+◌, ◌≡◌, refl, String, Bool, some, Dict, merge, arith, if◌then◌else◌, ==_iff,
}
use cmdboss.Errors.Result.{ok}
use cmdboss.Errors.Result.Runs.{transaction_returns}
use cmdboss.Value.{Value, Number}
use cmdboss.Documents.{CiDoc, serialize}
use cmdboss.Driver.{Driver}
use cmdboss.Driver.Laws.{find_one-eq-some, find_one-narrow, update_unique_free}
use cmdboss.Registry.{TypeDoc, Model}
use cmdboss.Store.{Store, Config, Readings, Caller, spelling, put_cis}
use cmdboss.Store.Frame.{SameData, SameData-trans}
use cmdboss.Store.Returns.{FreshAudit, FreshEvent, record_audit_returns, emit_returns}
use cmdboss.Repository.{has_id, type_doc, compiled, validated, parse_object_id, existing}
use cmdboss.Repository.Prepared.{type_doc-SameData, compiled-SameData}
use cmdboss.Repository.Update.{at_revision, edited, swap, swapped, update_body, update}
use cmdboss.Repository.Update.Cas.{revision_entry, updated_event}

module _ (mongo : Driver) (cfg : Config mongo) where
  -- the ids of the rows that the request will write are new
  abbrev pub FreshRows : Readings → Store mongo → Type 0
  FreshRows r s = FreshAudit mongo cfg r s × FreshEvent mongo cfg r s

  -- no unique index keeps the edit of the document at its revision out
  abbrev pub Fits :
      Readings → String → String → ℕ → TypeDoc → Dict Value → CiDoc → Store mongo → Type 0
  Fits r actor type_name oid t fields old s =
      clashes (cfg.same_ci type_name) (at_revision oid (some (Number.above old.meta.revision)))
        (edited r actor t.version (old.meta.revision + 1) fields) (mongo.docs (s.cis type_name))
      ≡ false

  at_own_revision :
      (type_name : String) (oid : ℕ) (s : Store mongo) (old : CiDoc)
      → mongo.find_one (has_id oid) (s.cis type_name) ≡ some old
      → mongo.find_one (at_revision oid (some (Number.above old.meta.revision))) (s.cis type_name)
        ≡ some old
  at_own_revision type_name oid s old found =
      let (mem, hit) = find_one-eq-some mongo (has_id oid) (s.cis type_name) old found in
      find_one-narrow mongo (at_revision oid (some (Number.above old.meta.revision))) (has_id oid)
        (s.cis type_name) old (λ b h. ground arith) found
        (ground (arith, ==_iff old.meta.revision old.meta.revision))

  update_body_returns :
      (r : Readings) (type_name item_id : String) (oid : ℕ) (t : TypeDoc) (model : Model)
      (payload fields : Dict Value) (partial : Bool) (caller : Caller) (s : Store mongo)
      (old : CiDoc)
      → mongo.find_one (has_id oid) (s.cis type_name) ≡ some old
      → cfg.validate model (if partial then merge old.fields payload else payload) ≡ some fields
      → Fits r caller.actor type_name oid t fields old s
      → FreshRows r s
      → (s' : Store mongo) × (update_body mongo cfg r type_name item_id oid t
            (validated mongo cfg model)
            payload
            (some (Number.above old.meta.revision))
            partial
            caller
            s
          ≡ (
            ok (
                serialize
                  (spelling mongo cfg)
                  (edited r caller.actor t.version (old.meta.revision + 1) fields old)),
            s',
          ))
  unfolding update_body existing validated swap swapped
  update_body_returns r type_name item_id oid t model payload fields partial caller s old found
        valid fits (fresh_audit, fresh_event) =
      let current = some (Number.above old.meta.revision) in
      let f = edited r caller.actor t.version (old.meta.revision + 1) fields in
      let own = at_own_revision type_name oid s old found in
      let accepted =
        update_unique_free mongo (cfg.same_ci type_name) (at_revision oid current) f
          (s.cis type_name) fits in
      let s1 : Store mongo =
        put_cis mongo type_name (mongo.update_one (at_revision oid current) f (s.cis type_name))
          s in
      let (a, h2) =
        record_audit_returns mongo cfg r
          (revision_entry mongo cfg r type_name item_id t.version old (f old) caller) s1
          fresh_audit in
      let s2 : Store mongo = record s1 { audit = a } in
      let (o, h3) =
        emit_returns mongo cfg r (updated_event mongo cfg r type_name item_id (f old) caller) s2
          refl fresh_event in
      (record s2 { outbox = o }, rw (existing, found, valid, swap, own, accepted, h2, h3) refl)

  -- A PUT or PATCH under the current revision of a document returns its edit at the next revision
  -- whenever the type is found, the id is well formed and that of a document, the type's compiled
  -- model accepts the payload (laid over the document's fields for a PATCH), no unique index holds
  -- the edit to be the same as another document, and the ids drawn for the rows of the log and the
  -- outbox are new.
  pub update_returns :
      (r : Readings) (type_name item_id : String) (payload fields : Dict Value) (partial : Bool)
      (caller : Caller) (s s1 s2 : Store mongo) (t : TypeDoc) (model : Model) (oid : ℕ)
      (old : CiDoc)
      → type_doc mongo cfg r type_name s ≡ (ok t, s1)
      → compiled mongo cfg r type_name s1 ≡ (ok model, s2)
      → mongo.object_id item_id ≡ some oid
      → mongo.find_one (has_id oid) (s.cis type_name) ≡ some old
      → cfg.validate model (if partial then merge old.fields payload else payload) ≡ some fields
      → Fits r caller.actor type_name oid t fields old s
      → FreshRows r s
      → (s' : Store mongo) × (update mongo cfg r type_name item_id payload
            (some (Number.above old.meta.revision))
            partial
            caller
            s
          ≡ (
            ok (
                serialize
                  (spelling mongo cfg)
                  (edited r caller.actor t.version (old.meta.revision + 1) fields old)),
            s',
          ))
  unfolding update parse_object_id SameData
  update_returns r type_name item_id payload fields partial caller s s1 s2 t model oid old h1 h2 id
        found valid fits (fresh_audit, fresh_event) =
      let (cis, edges, audit, outbox) : SameData mongo s s2 =
        SameData-trans mongo s s1 s2 (type_doc-SameData mongo cfg r type_name s s1 (ok t) h1)
          (compiled-SameData mongo cfg r type_name s1 s2 (ok model) h2) in
      let (s', run) =
        update_body_returns r type_name item_id oid t model payload fields partial caller s2 old
          (rw cis found) valid (rw cis fits) (rw audit fresh_audit, rw outbox fresh_event) in
      let done =
        transaction_returns cfg.txn_enabled
          (update_body mongo cfg r type_name item_id oid t (validated mongo cfg model) payload
            (some (Number.above old.meta.revision)) partial caller)
          s2 s'
          (serialize (spelling mongo cfg)
            (edited r caller.actor t.version (old.meta.revision + 1) fields old))
          run in
      (s', rw (h1, h2, id) done)

-- ===== src/Store/Returns.antt =====
-- When the log and the outbox take a row.
use cmdboss.Prelude.{◌≡◌, refl, ◌==◌, false, any}
use cmdboss.Errors.Result.{ok}
use cmdboss.Documents.{Event}
use cmdboss.Driver.{Driver}
use cmdboss.Driver.Laws.{insert_free}
use cmdboss.Audit
use cmdboss.Audit.{Entry, AuditDoc, entry_doc}
use cmdboss.Outbox
use cmdboss.Outbox.{OutboxDoc, new_row}
use cmdboss.Store.{Store, Config, Readings, spelling, record_audit, emit, audited, queued}

module _ (mongo : Driver) (cfg : Config mongo) where
  -- no row of the log has the id that the request draws for its own
  abbrev pub FreshAudit : Readings → Store mongo → Type 0
  FreshAudit r s = any (λ (d : AuditDoc). r.audit_id == d.id) (mongo.docs s.audit) ≡ false

  abbrev pub FreshEvent : Readings → Store mongo → Type 0
  FreshEvent r s = any (λ (d : OutboxDoc). r.event_id == d.id) (mongo.docs s.outbox) ≡ false

  pub record_audit_returns :
      (r : Readings) (entry : Entry) (s : Store mongo)
      → FreshAudit r s
      → (c : mongo.Coll AuditDoc) × (record_audit mongo cfg r entry s
          ≡ (ok tt, record s { audit = c }))
  unfolding record_audit Audit.append entry_doc
  record_audit_returns r entry s fresh =
      let doc = entry_doc (spelling mongo cfg) r.audit_id r.audited_at entry in
      let (c, e) = insert_free mongo Audit.same_id doc s.audit fresh in (c, rw (e, audited) refl)

  pub emit_returns :
      (r : Readings) (event : Event) (s : Store mongo)
      → event.id ≡ r.event_id
      → FreshEvent r s
      → (c : mongo.Coll OutboxDoc) × (emit mongo r event s ≡ (ok tt, record s { outbox = c }))
  unfolding emit Outbox.add
  emit_returns r event s same fresh =
      let (c, e) =
        insert_free mongo Outbox.same_id (new_row r.queued_at event) s.outbox (rw same fresh) in
      (c, rw (e, queued) refl)

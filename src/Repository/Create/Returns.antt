-- ===== src/Repository/Create/Returns.antt =====
-- When a `create` returns.
use cmdboss.Prelude.{◌≡◌, refl, String, false, Option, none, some, Dict, any}
use cmdboss.Errors.Result.{ok, transaction}
use cmdboss.Errors.Result.Runs.{transaction_returns, on_error_returns}
use cmdboss.Value.{Value}
use cmdboss.Documents.{CiDoc, serialize}
use cmdboss.Driver.{Driver}
use cmdboss.Driver.Laws.{insert_free}
use cmdboss.Registry.{TypeDoc, Model}
use cmdboss.Store.{Store, Config, Readings, Caller, spelling, put_cis}
use cmdboss.Store.Frame.{SameData}
use cmdboss.Store.Returns.{FreshAudit, FreshEvent, record_audit_returns, emit_returns}
use cmdboss.Repository.{type_doc, compiled, validated}
use cmdboss.Repository.Create.{
  new_ci, insert_ci, create_body, create_write, create, idem_key, precheck, replay_or_write,
  release_key, store_response,
}
use cmdboss.Repository.Create.Effects.{creation, created}
use cmdboss.Repository.Prepared.{prepared-SameData}

module _ (mongo : Driver) (cfg : Config mongo) where
  -- no unique index keeps the document out, and the ids of its rows are new
  abbrev pub Fresh : Readings → String → CiDoc → Store mongo → Type 0
  Fresh r type_name doc s =
      (any (cfg.same_ci type_name doc) (mongo.docs (s.cis type_name)) ≡ false)
      × FreshAudit mongo cfg r s
      × FreshEvent mongo cfg r s

  insert_ci_returns :
      (type_name : String) (doc : CiDoc) (s : Store mongo)
      → any (cfg.same_ci type_name doc) (mongo.docs (s.cis type_name)) ≡ false
      → (c : mongo.Coll CiDoc) × (insert_ci mongo cfg type_name doc s
          ≡ (ok tt, put_cis mongo type_name c s))
  unfolding insert_ci
  insert_ci_returns type_name doc s free =
      let (c, e) = insert_free mongo (cfg.same_ci type_name) doc (s.cis type_name) free in
      (c, rw (insert_ci, e) refl)

  create_body_returns :
      (r : Readings) (type_name : String) (doc : CiDoc) (caller : Caller) (s : Store mongo)
      → Fresh r type_name doc s
      → (s' : Store mongo) × (create_body mongo cfg r type_name doc caller none s
          ≡ (ok (serialize (spelling mongo cfg) doc), s'))
  unfolding create_body store_response
  create_body_returns r type_name doc caller s (free, fresh_audit, fresh_event) =
      let (c, h1) = insert_ci_returns type_name doc s free in
      let s1 = put_cis mongo type_name c s in
      let (a, h2) =
        record_audit_returns mongo cfg r (creation mongo cfg r type_name doc caller) s1
          fresh_audit in
      let s2 : Store mongo = record s1 { audit = a } in
      let (o, h3) =
        emit_returns mongo cfg r (created mongo cfg r type_name doc caller) s2 refl fresh_event in
      (record s2 { outbox = o }, rw (h1, h2, h3) refl)

  Fresh-SameData :
      (r : Readings) (type_name : String) (doc : CiDoc) (s t : Store mongo)
      → SameData mongo s t
      → Fresh r type_name doc s
      → Fresh r type_name doc t
  unfolding SameData
  Fresh-SameData r type_name doc s t (cis, edges, audit, outbox) (a, b, c) =
      (rw cis a, rw audit b, rw outbox c)

  -- A `create` without an Idempotency-Key in use returns the serialised new document whenever the
  -- type is found, its compiled model accepts the payload, no unique index holds the document to be
  -- one that is there, and the ids drawn for the rows of the log and the outbox are new.
  pub create_returns :
      (r : Readings) (type_name : String) (payload fields : Dict Value) (caller : Caller)
      (key : Option String) (s s1 s2 : Store mongo) (t : TypeDoc) (model : Model)
      → idem_key mongo cfg key ≡ none
      → type_doc mongo cfg r type_name s ≡ (ok t, s1)
      → compiled mongo cfg r type_name s1 ≡ (ok model, s2)
      → cfg.validate model payload ≡ some fields
      → Fresh r type_name (new_ci r type_name t caller.actor fields) s
      → (s' : Store mongo) × (create mongo cfg r type_name payload caller key s
          ≡ (ok (serialize (spelling mongo cfg) (new_ci r type_name t caller.actor fields)), s'))
  unfolding create precheck replay_or_write create_write validated
  create_returns r type_name payload fields caller key s s1 s2 t model unused h1 h2 h3 fresh =
      let doc = new_ci r type_name t caller.actor fields in
      let valid : validated mongo cfg model payload s2 ≡ (ok fields, s2) = rw h3 refl in
      let same : SameData mongo s s2 =
        prepared-SameData mongo cfg r type_name payload s s1 s2 s2 model (ok t) (ok model)
          (ok fields) h1 h2 valid in
      let (s', h4) =
        create_body_returns r type_name doc caller s2
          (Fresh-SameData r type_name doc s s2 same fresh) in
      let run =
        on_error_returns (release_key mongo cfg type_name none)
          (transaction cfg.txn_enabled (create_body mongo cfg r type_name doc caller none)) s2 s'
          (serialize (spelling mongo cfg) doc)
          (transaction_returns cfg.txn_enabled (create_body mongo cfg r type_name doc caller none)
            s2 s' (serialize (spelling mongo cfg) doc) h4) in
      (s', rw (h1, h2, h3, unused) run)

-- ===== src/Repository/Create/Effects.antt =====
-- What a `create` that succeeds has written, and what one that raises has not.
use cmdboss.Prelude.{◌≡◌, ap, String, Option, none, some, ◌∷◌, [], ◌++◌, inl, inr, Option-cases}
use cmdboss.Errors.Result.{ok}
use cmdboss.Errors.Result.Runs.{then_ok}
use cmdboss.Documents.{CiDoc, Item, Payload, Event, serialize}
use cmdboss.Driver.{Driver}
use cmdboss.Driver.Laws.{insert_docs}
use cmdboss.Audit.{Action, Entry}
use cmdboss.Store.{Store, Config, Readings, Caller, spelling, put_cis, record_audit, event_of, emit}
use cmdboss.Store.Frame.{
  SameData-cis, put_cis-SameData, Reported-frame, SameData, SameData-refl, Reported,
  Reported-compose,
}
use cmdboss.Repository.Create.{insert_ci, create_body, store_response}

module _ (mongo : Driver) (cfg : Config mongo) where
  insert_ci_ok :
      (type_name : String) (doc : CiDoc) (s s' : Store mongo) (u : Unit {0})
      → insert_ci mongo cfg type_name doc s ≡ (ok u, s')
      → (c : mongo.Coll CiDoc) × (mongo.docs c ≡ mongo.docs (s.cis type_name) ++ doc ∷ [])
        × (s' ≡ put_cis mongo type_name c s)
  unfolding insert_ci
  insert_ci_ok type_name doc s s' u h =
      elim (Option-cases (mongo.insert_one (cfg.same_ci type_name) doc (s.cis type_name))) [
        | inl e ↦ cc (rw (insert_ci, e) at h)
        | inr (c, e) ↦
            let k = rw (insert_ci, e) at h in
            (c, (insert_docs mongo (cfg.same_ci type_name) doc (s.cis type_name) c e).1, cc)
      ]

  -- the record of the creation in the log, and its event
  abbrev pub creation : Readings → String → CiDoc → Caller → Entry
  creation r type_name doc caller = record {
    action = Action.create;
    entity_type = type_name;
    entity_id = (serialize (spelling mongo cfg) doc).id;
    actor = caller.actor;
    before = none;
    after = some (Payload.item (serialize (spelling mongo cfg) doc));
    schema_version = some doc.meta.schema_version;
    revision = some 1;
    request_id = caller.request_id;
  }

  abbrev pub created : Readings → String → CiDoc → Caller → Event
  created r type_name doc caller =
      let item = serialize (spelling mongo cfg) doc in
      event_of mongo r "ci.created" type_name item.id caller.actor (Payload.item item)

  -- the document, one record in the log and one event in the outbox, and nothing else
  pub Created : Readings → String → CiDoc → Caller → Item → Store mongo → Store mongo → Type 0
  Created r type_name doc caller item s s' =
      (item ≡ serialize (spelling mongo cfg) doc)
      × ((c : mongo.Coll CiDoc) × (mongo.docs c ≡ mongo.docs (s.cis type_name) ++ doc ∷ [])
          × Reported mongo cfg r (creation r type_name doc caller) (created r type_name doc caller)
              (put_cis mongo type_name c s) s')

  store_response_ok :
      (r : Readings) (scope : String) (idem : Option String) (item : Item) (s s' : Store mongo)
      (u : Unit {0})
      → store_response mongo cfg r scope idem item s ≡ (ok u, s')
      → SameData mongo s s'
  unfolding store_response SameData
  store_response_ok r scope none item s s' u h = (cc, cc, cc, cc)
  store_response_ok r scope (some key) item s s' u h = (cc, cc, cc, cc)

  pub create_body_ok :
      (r : Readings) (type_name : String) (doc : CiDoc) (caller : Caller) (idem : Option String)
      (s s' : Store mongo) (item : Item)
      → create_body mongo cfg r type_name doc caller idem s ≡ (ok item, s')
      → Created r type_name doc caller item s s'
  unfolding create_body Created
  create_body_ok r type_name doc caller idem s s' item h =
      let (t1, h1, k1) = then_ok (insert_ci mongo cfg type_name doc) _ s s' item h in
      let (t2, h2, k2) =
        then_ok (record_audit mongo cfg r (creation r type_name doc caller)) _ t1 s' item k1 in
      let (t3, h3, k3) = then_ok (emit mongo r (created r type_name doc caller)) _ t2 s' item k2 in
      let response = serialize (spelling mongo cfg) doc in
      let (t4, h4, k4) =
        then_ok (store_response mongo cfg r type_name idem response) _ t3 s' item k3 in
      let (c, appended, put) = insert_ci_ok type_name doc s t1 tt h1 in
      (
        cc,
        (
          c,
          appended,
          let same : SameData mongo t3 t4 =
                store_response_ok r type_name idem response t3 t4 tt h4 in
              Reported-frame mongo cfg r (creation r type_name doc caller)
                (created r type_name doc caller) (put_cis mongo type_name c s) s' t1 t3
                (rw put (SameData-refl mongo (put_cis mongo type_name c s)))
                (rw (ap (λ x. x.1) k4) at same)
                (Reported-compose mongo cfg r (creation r type_name doc caller)
                  (created r type_name doc caller) t1 t2 t3 tt tt h2 h3),
        ),
      )

  pub Created-frame :
      (r : Readings) (type_name : String) (doc : CiDoc) (caller : Caller) (item : Item)
      (s t s' : Store mongo)
      → SameData mongo s t
      → Created r type_name doc caller item t s'
      → Created r type_name doc caller item s s'
  unfolding Created
  Created-frame r type_name doc caller item s t s' same (i, (c, appended, reported)) = (
    i,
    (
      c,
      rw (SameData-cis mongo s t same) at appended,
      Reported-frame mongo cfg r (creation r type_name doc caller) (created r type_name doc caller)
          (put_cis mongo type_name c s) s' (put_cis mongo type_name c t) s'
          (put_cis-SameData mongo type_name c s t same) (SameData-refl mongo s') reported,
    ),
  )

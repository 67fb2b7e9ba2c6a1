-- ===== src/Repository/Update/Cas.antt =====
-- What an `update` that succeeds has written: the compare-and-swap on the revision.
use cmdboss.Prelude.{
  ℕ, ◌+◌, ◌≡◌, refl, sym, ap, ◌∙◌, String, Bool, Option, none, some, Dict, merge, inl, inr,
  Option-cases, ◌==◌, ==_iff, arith, Distinct, if◌then◌else◌,
}
use cmdboss.Errors.Result.{ok, pure}
use cmdboss.Errors.Result.Runs.{bind_ok, then_ok}
use cmdboss.Value.{Value, Number}
use cmdboss.Documents.{CiDoc, Item, Payload, Event, serialize}
use cmdboss.Driver.{Driver}
use cmdboss.Driver.Laws.{find_one-eq-some, find_one-narrower, update_unique_ok}
use cmdboss.Audit.{Action, Entry}
use cmdboss.Registry.{TypeDoc, Model}
use cmdboss.Store.{Store, Config, Readings, Caller, spelling, put_cis, record_audit, event_of, emit}
use cmdboss.Store.Frame.{Reported, Reported-compose}
use cmdboss.Repository.{is_revision-eq, has_id, existing, validated}
use cmdboss.Repository.Update.{at_revision, edited, swap, missed, swapped, update_body}

-- no two CIs of a type share an `_id`
abbrev pub same_ci : CiDoc → CiDoc → Bool
same_ci a b = a.id == b.id

module _ (mongo : Driver) (cfg : Config mongo) where
  unfoldable pub HasUniqueIds : String → Store mongo → Type 0
  HasUniqueIds type_name s = Distinct same_ci (mongo.docs (s.cis type_name))

  pub existing_ok :
      (type_name : String) (oid : ℕ) (s s' : Store mongo) (d : CiDoc)
      → existing mongo cfg type_name oid s ≡ (ok d, s')
      → (mongo.find_one (has_id oid) (s.cis type_name) ≡ some d) × (s' ≡ s)
  unfolding existing
  existing_ok type_name oid s s' d h =
      elim (Option-cases (mongo.find_one (has_id oid) (s.cis type_name))) [
        | inl e ↦ cc (rw (existing, e) at h)
        | inr (a, e) ↦ let k = rw (existing, e) at h in (cc, cc)
      ]

  validated_ok :
      (model : Model) (payload : Dict Value) (s s' : Store mongo) (d : Dict Value)
      → validated mongo cfg model payload s ≡ (ok d, s')
      → (cfg.validate model payload ≡ some d) × (s' ≡ s)
  unfolding validated
  validated_ok model payload s s' d h = elim (Option-cases (cfg.validate model payload)) [
    | inl e ↦ cc (rw (validated, e) at h)
    | inr (a, e) ↦ let k = rw (validated, e) at h in (cc, cc)
  ]

  swap_ok :
      (type_name : String) (oid : ℕ) (expected : Option Number) (f : CiDoc → CiDoc)
      (s s' : Store mongo) (d : CiDoc)
      → swap mongo cfg type_name oid expected f s ≡ (ok d, s')
      → (old : CiDoc) × (mongo.find_one (at_revision oid expected) (s.cis type_name) ≡ some old)
        × (d ≡ f old)
        × (s'
            ≡ put_cis mongo type_name
                (mongo.update_one (at_revision oid expected) f (s.cis type_name))
                s)
  unfolding swap missed swapped
  swap_ok type_name oid expected f s s' d h =
      elim (Option-cases (mongo.find_one (at_revision oid expected) (s.cis type_name))) [
        | inr (a, e) ↦
            elim (Option-cases (
              mongo.update_unique (cfg.same_ci type_name) (at_revision oid expected) f
                (s.cis type_name))) [
                  | inl refused ↦ cc (rw (swap, e, swapped, refused) at h)
                  | inr (c, accepted) ↦
                      let k = rw (swap, e, swapped, accepted) at h in
                      let c_is =
                        update_unique_ok mongo (cfg.same_ci type_name) (at_revision oid expected) f
                          (s.cis type_name) c accepted in
                      (a, e, cc, rw (← c_is) (sym (ap (λ y. y.1) k)))
                ]
        | inl e ↦ elim (Option-cases (mongo.find_one (has_id oid) (s.cis type_name))) [
          | inl e' ↦ cc (rw (swap, e, missed, e') at h)
          | inr (a, e') ↦ cc (rw (swap, e, missed, e') at h)
        ]
      ]

  -- the compare-and-swap of one document: the matched one, by the query on the revision
  swap_one :
      (type_name : String) (oid : ℕ) (expected : Option Number) (f : CiDoc → CiDoc)
      (s : Store mongo) (old matched : CiDoc)
      → HasUniqueIds type_name s
      → (f matched).id ≡ matched.id
      → mongo.find_one (has_id oid) (s.cis type_name) ≡ some old
      → mongo.find_one (at_revision oid expected) (s.cis type_name) ≡ some matched
      → (expected ≡ some (Number.above old.meta.revision))
        × (old ≡ matched)
        × (mongo.find_one
              (has_id oid)
              (mongo.update_one (at_revision oid expected) f (s.cis type_name))
            ≡ some (f old))
  unfolding HasUniqueIds
  swap_one type_name oid none f s old matched unique keep h k =
      let (mem, hit) = find_one-eq-some mongo (at_revision oid none) (s.cis type_name) matched k in
      cc
  swap_one type_name oid (some n) f s old matched unique keep h k =
      let (mem, hit) =
        find_one-eq-some mongo (at_revision oid (some n)) (s.cis type_name) matched k in
      let (same, found) =
        find_one-narrower mongo same_ci (has_id oid) (at_revision oid (some n)) f (s.cis type_name)
          old matched unique
          (λ c d x y. ground (arith, ==_iff c.id oid, ==_iff d.id oid, ==_iff c.id d.id))
          (λ c x. ground arith) h k (rw keep (ground arith)) in
      (
        ap some (rw same (is_revision-eq n matched.meta.revision (ground arith))),
        same,
        rw same found,
      )

  -- the record of the change in the log, and its event
  abbrev pub revision_entry : Readings → String → String → ℕ → CiDoc → CiDoc → Caller → Entry
  revision_entry r type_name item_id schema_version old new caller = record {
    action = Action.update;
    entity_type = type_name;
    entity_id = item_id;
    actor = caller.actor;
    before = some (Payload.item (serialize (spelling mongo cfg) old));
    after = some (Payload.item (serialize (spelling mongo cfg) new));
    schema_version = some schema_version;
    revision = some (old.meta.revision + 1);
    request_id = caller.request_id;
  }

  abbrev pub updated_event : Readings → String → String → CiDoc → Caller → Event
  updated_event r type_name item_id new caller =
      event_of mongo r "ci.updated" type_name item_id caller.actor
        (Payload.item (serialize (spelling mongo cfg) new))

  -- The current document was at the revision that the caller expected. It is replaced by its edit, one
  -- revision on, with one record in the log and one event in the outbox; nothing else is written.
  unfoldable pub Updated :
      Readings
      → String
      → String
      → ℕ
      → TypeDoc
      → Option Number
      → Caller
      → Item
      → Store mongo
      → Store mongo
      → Type 0
  Updated r type_name item_id oid t expected caller item s s' =
      (old : CiDoc) × (fields : Dict Value) × (c : mongo.Coll CiDoc) × (mongo.find_one (has_id oid)
          (s.cis type_name)
        ≡ some old)
      × (expected ≡ some (Number.above old.meta.revision))
      × (c
          ≡ mongo.update_one (at_revision oid expected)
              (edited r caller.actor t.version (old.meta.revision + 1) fields) (s.cis type_name))
      × (mongo.find_one (has_id oid) c
          ≡ some (edited r caller.actor t.version (old.meta.revision + 1) fields old))
      × (item
          ≡ serialize (spelling mongo cfg)
              (edited r caller.actor t.version (old.meta.revision + 1) fields old))
      × Reported mongo cfg r
          (revision_entry r type_name item_id t.version old
            (edited r caller.actor t.version (old.meta.revision + 1) fields old) caller)
          (updated_event r type_name item_id
            (edited r caller.actor t.version (old.meta.revision + 1) fields old) caller)
          (put_cis mongo type_name c s) s'

  Updated-steps :
      (r : Readings) (type_name item_id : String) (oid : ℕ) (t : TypeDoc) (expected : Option Number)
      (caller : Caller) (s s2 s3 s4 s5 s' : Store mongo) (item : Item) (old matched new : CiDoc)
      (fields : Dict Value)
      → HasUniqueIds type_name s
      → mongo.find_one (has_id oid) (s.cis type_name) ≡ some old
      → s2 ≡ s
      → mongo.find_one (at_revision oid expected) (s2.cis type_name) ≡ some matched
      → new ≡ edited r caller.actor t.version (old.meta.revision + 1) fields matched
      → s3
        ≡ put_cis mongo type_name
            (mongo.update_one
              (at_revision oid expected)
              (edited r caller.actor t.version (old.meta.revision + 1) fields)
              (s2.cis type_name))
            s2
      → record_audit mongo cfg r (revision_entry r type_name item_id t.version old new caller) s3
        ≡ (ok tt, s4)
      → emit mongo r (updated_event r type_name item_id new caller) s4 ≡ (ok tt, s5)
      → pure (serialize (spelling mongo cfg) new) s5 ≡ (ok item, s')
      → Updated r type_name item_id oid t expected caller item s s'
  unfolding Updated
  Updated-steps r type_name item_id oid t expected caller s s2 s3 s4 s5 s' item old matched new
        fields unique found start hit e3 e3' h4 h5 k5 =
      let f = edited r caller.actor t.version (old.meta.revision + 1) fields in
      let (current, same, after) =
        swap_one type_name oid expected f s old matched unique refl found (rw start at hit) in
      let made : new ≡ f old = e3 ∙ ap f (sym same) in
      let put =
        e3'
        ∙ ap
            (λ u.
              put_cis mongo type_name
                (mongo.update_one (at_revision oid expected) f (u.cis type_name)) u)
            start in
      let reported =
        Reported-compose mongo cfg r (revision_entry r type_name item_id t.version old new caller)
          (updated_event r type_name item_id new caller) s3 s4 s5 tt tt h4 h5 in
      let last : s5 ≡ s' = ap (λ y. y.1) k5 in
      let returned : serialize (spelling mongo cfg) new ≡ item = cc in
      (
        old,
        fields,
        mongo.update_one (at_revision oid expected) f (s.cis type_name),
        found,
        current,
        refl,
        after,
        sym returned ∙ ap (serialize (spelling mongo cfg)) made,
        rw (made, put, last) at reported,
      )

  pub update_body_ok :
      (r : Readings) (type_name item_id : String) (oid : ℕ) (t : TypeDoc) (model : Model)
      (payload : Dict Value) (expected : Option Number) (partial : Bool) (caller : Caller)
      (s s' : Store mongo) (item : Item)
      → HasUniqueIds type_name s
      → update_body mongo cfg r type_name item_id oid t
          (validated mongo cfg model)
          payload
          expected
          partial
          caller
          s
        ≡ (ok item, s')
      → Updated r type_name item_id oid t expected caller item s s'
  unfolding update_body Updated
  update_body_ok r type_name item_id oid t model payload expected partial caller s s' item unique
        h =
      let (old, s1, h1, k1) = bind_ok (existing mongo cfg type_name oid) _ s s' item h in
      let (found, e1) = existing_ok type_name oid s s1 old h1 in
      let (fields, s2, h2, k2) =
        bind_ok (validated mongo cfg model (if partial then merge old.fields payload else payload))
          _ s1 s' item k1 in
      let (valid, e2) =
        validated_ok model (if partial then merge old.fields payload else payload) s1 s2 fields
          h2 in
      let f = edited r caller.actor t.version (old.meta.revision + 1) fields in
      let (new, s3, h3, k3) = bind_ok (swap mongo cfg type_name oid expected f) _ s2 s' item k2 in
      let (matched, hit, e3, e3') = swap_ok type_name oid expected f s2 s3 new h3 in
      let (s4, h4, k4) =
        then_ok
          (record_audit mongo cfg r (revision_entry r type_name item_id t.version old new caller)) _
          s3 s' item k3 in
      let (s5, h5, k5) =
        then_ok (emit mongo r (updated_event r type_name item_id new caller)) _ s4 s' item k4 in
      Updated-steps r type_name item_id oid t expected caller s s2 s3 s4 s5 s' item old matched new
        fields unique found (e2 ∙ e1) hit e3 e3' h4 h5 k5

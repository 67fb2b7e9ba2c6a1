-- ===== src/Repository/Delete/Guarded.antt =====
-- What a `delete` that succeeds has written, and when the guard stops it.
use cmdboss.Prelude.{
  ℕ, ◌≡◌, ◌⊎◌, refl, sym, ap, ◌∙◌, String, false, Option, none, some, inl, inr, Bool-cases, arith,
  ltb, ==_iff,
}
use cmdboss.Errors.Result.{ok}
use cmdboss.Errors.Result.Runs.{bind_ok, then_ok, transaction_ok}
use cmdboss.Documents.{CiDoc, Payload, Event, serialize}
use cmdboss.Value.{Number}
use cmdboss.Driver.{Driver}
use cmdboss.Driver.Laws.{find_one-delete_gone}
use cmdboss.Audit.{Action, Entry}
use cmdboss.Store.{Store, Config, Readings, Caller, spelling, put_cis, record_audit, event_of, emit}
use cmdboss.Store.Frame.{SameData, SameData-cis, Reported, Reported-compose}
use cmdboss.Repository.{is_revision, is_revision-eq, has_id, type_doc, parse_object_id, existing}
use cmdboss.Repository.Guard.{Guard}
use cmdboss.Repository.Prepared.{type_doc-SameData, parse_object_id-cases, parse_object_id_ok}
use cmdboss.Repository.Update.Cas.{same_ci, HasUniqueIds, existing_ok}
use cmdboss.Repository.Delete.{
  check_revision, check_edges, detached, delete_ci, delete_body, delete,
}

module _ (mongo : Driver) (cfg : Config mongo) where
  abbrev deletion : Readings → String → String → CiDoc → Caller → Entry
  deletion r type_name item_id old caller = record {
    action = Action.delete;
    entity_type = type_name;
    entity_id = item_id;
    actor = caller.actor;
    before = some (Payload.item (serialize (spelling mongo cfg) old));
    after = none;
    schema_version = some old.meta.schema_version;
    revision = some old.meta.revision;
    request_id = caller.request_id;
  }

  abbrev deleted_event : Readings → String → String → CiDoc → Caller → Event
  deleted_event r type_name item_id old caller =
      event_of mongo r "ci.deleted" type_name item_id caller.actor
        (Payload.item (serialize (spelling mongo cfg) old))

  -- The document is gone, with one record of it in the log and one event in the outbox.
  pub Deleted :
      Readings → String → String → ℕ → Option Number → Caller → Store mongo → Store mongo → Type 0
  Deleted r type_name item_id oid expected caller s s' =
      (old : CiDoc) × (c : mongo.Coll CiDoc) × (mongo.find_one (has_id oid) (s.cis type_name)
        ≡ some old)
      × ((expected ≡ none) ⊎ (expected ≡ some (Number.above old.meta.revision)))
      × (c ≡ mongo.delete_one (has_id oid) (s.cis type_name))
      × (mongo.find_one (has_id oid) c ≡ none)
      × Reported mongo cfg r (deletion r type_name item_id old caller)
          (deleted_event r type_name item_id old caller) (put_cis mongo type_name c s) s'

  check_revision_ok :
      (expected : Option Number) (d : CiDoc) (s s' : Store mongo) (u : Unit {0})
      → check_revision mongo cfg expected d s ≡ (ok u, s')
      → ((expected ≡ none) ⊎ (expected ≡ some (Number.above d.meta.revision))) × (s' ≡ s)
  unfolding check_revision
  check_revision_ok none d s s' u h = (inl refl, cc)
  check_revision_ok (some n) d s s' u h = elim (Bool-cases (is_revision n d.meta.revision)) [
    | inl e ↦
        let k = rw (check_revision, e) at h in
        (inr (ap some (is_revision-eq n d.meta.revision e)), cc)
    | inr e ↦ cc (rw (check_revision, e) at h)
  ]

  check_edges_ok :
      (g : Guard mongo) (type_name : String) (oid : ℕ) (caller : Caller) (s s' : Store mongo)
      (u : Unit {0})
      → check_edges mongo cfg (some g) type_name oid false caller s ≡ (ok u, s')
      → (g.count_edges type_name oid s ≡ 0) × (s' ≡ s)
  unfolding check_edges detached
  check_edges_ok g type_name oid caller s s' u h =
      elim (Bool-cases (ltb 0 (g.count_edges type_name oid s))) [
        | inl e ↦ cc (rw (check_edges, detached, e) at h)
        | inr e ↦ let k = rw (check_edges, detached, e) at h in (ground arith, cc)
      ]

  Deleted-steps :
      (g : Guard mongo) (r : Readings) (type_name item_id : String) (oid : ℕ)
      (expected : Option Number) (caller : Caller) (s s1 s2 s3 s4 s5 s' : Store mongo) (old : CiDoc)
      (u : Unit {0})
      → HasUniqueIds mongo cfg type_name s
      → mongo.find_one (has_id oid) (s.cis type_name) ≡ some old
      → s1 ≡ s
      → check_revision mongo cfg expected old s1 ≡ (ok tt, s2)
      → check_edges mongo cfg (some g) type_name oid false caller s2 ≡ (ok tt, s3)
      → delete_ci mongo cfg type_name oid s3 ≡ (ok tt, s4)
      → record_audit mongo cfg r (deletion r type_name item_id old caller) s4 ≡ (ok tt, s5)
      → emit mongo r (deleted_event r type_name item_id old caller) s5 ≡ (ok u, s')
      → (g.count_edges type_name oid s ≡ 0) × Deleted r type_name item_id oid expected caller s s'
  unfolding Deleted delete_ci HasUniqueIds
  Deleted-steps g r type_name item_id oid expected caller s s1 s2 s3 s4 s5 s' old u unique found e1
        h2 h3 h4 h5 h6 =
      let (revision, e2) = check_revision_ok expected old s1 s2 tt h2 in
      let (edgeless, e3) = check_edges_ok g type_name oid caller s2 s3 tt h3 in
      let start : s2 ≡ s = e2 ∙ e1 in
      let gone =
        find_one-delete_gone mongo same_ci (has_id oid) (s.cis type_name) unique
          (λ a b x y. ground (arith, ==_iff a.id oid, ==_iff b.id oid, ==_iff a.id b.id)) in
      let put =
        sym (ap (λ y. y.1) h4)
        ∙ ap (λ v. put_cis mongo type_name (mongo.delete_one (has_id oid) (v.cis type_name)) v)
            (e3 ∙ start) in
      let reported =
        Reported-compose mongo cfg r (deletion r type_name item_id old caller)
          (deleted_event r type_name item_id old caller) s4 s5 s' tt u h5 h6 in
      (
        rw start at edgeless,
        (
          old,
          mongo.delete_one (has_id oid) (s.cis type_name),
          found,
          revision,
          refl,
          gone,
          rw put at reported,
        ),
      )

  delete_body_ok :
      (g : Guard mongo) (r : Readings) (type_name item_id : String) (oid : ℕ)
      (expected : Option Number) (caller : Caller) (s s' : Store mongo) (u : Unit {0})
      → HasUniqueIds mongo cfg type_name s
      → delete_body mongo cfg (some g) r type_name item_id oid expected caller false s ≡ (ok u, s')
      → (g.count_edges type_name oid s ≡ 0) × Deleted r type_name item_id oid expected caller s s'
  unfolding delete_body
  delete_body_ok g r type_name item_id oid expected caller s s' u unique h =
      let (old, s1, h1, k1) = bind_ok (existing mongo cfg type_name oid) _ s s' u h in
      let (found, e1) = existing_ok mongo cfg type_name oid s s1 old h1 in
      let (s2, h2, k2) = then_ok (check_revision mongo cfg expected old) _ s1 s' u k1 in
      let (s3, h3, k3) =
        then_ok (check_edges mongo cfg (some g) type_name oid false caller) _ s2 s' u k2 in
      let (s4, h4, k4) = then_ok (delete_ci mongo cfg type_name oid) _ s3 s' u k3 in
      let (s5, h5, k5) =
        then_ok (record_audit mongo cfg r (deletion r type_name item_id old caller)) _ s4 s' u k4 in
      Deleted-steps g r type_name item_id oid expected caller s s1 s2 s3 s4 s5 s' old u unique found
        e1 h2 h3 h4 h5 k5

  -- Where the ids of the type are unique, a delete without detach that returns met no relationship
  -- of the CI and, where a revision was expected, that revision. The CI is gone from its
  -- collection, with one record in the log and one event in the outbox; no other record has
  -- changed.
  pub delete_effects :
      (g : Guard mongo) (r : Readings) (type_name item_id : String) (expected : Option Number)
      (caller : Caller) (s s' : Store mongo) (u : Unit {0})
      → HasUniqueIds mongo cfg type_name s
      → delete mongo cfg (some g) r type_name item_id expected caller false s ≡ (ok u, s')
      → (oid : ℕ) × (v : Store mongo) × (mongo.object_id item_id ≡ some oid)
        × SameData mongo s v
        × (g.count_edges type_name oid v ≡ 0)
        × Deleted r type_name item_id oid expected caller v s'
  unfolding delete HasUniqueIds
  delete_effects g r type_name item_id expected caller s s' u unique h =
      let (t, s1, h1, k1) = bind_ok (type_doc mongo cfg r type_name) _ s s' u h in
      let (oid, s2, h2, k2) = bind_ok (parse_object_id mongo cfg item_id) _ s1 s' u k1 in
      let same = type_doc-SameData mongo cfg r type_name s s1 (ok t) h1 in
      let same' : SameData mongo s s2 =
        rw (parse_object_id-cases mongo cfg item_id s1 s2 (ok oid) h2) same in
      let unique' : HasUniqueIds mongo cfg type_name s2 =
        rw (SameData-cis mongo s s2 same') unique in
      let (edgeless, deleted) =
        delete_body_ok g r type_name item_id oid expected caller s2 s' u unique' (
          transaction_ok cfg.txn_enabled
            (delete_body mongo cfg (some g) r type_name item_id oid expected caller false) s2 s' u
            k2) in
      (oid, s2, parse_object_id_ok mongo cfg item_id s1 s2 oid h2, same', edgeless, deleted)

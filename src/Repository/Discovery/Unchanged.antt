-- ===== src/Repository/Discovery/Unchanged.antt =====
-- A run of discovery over a CI that has not changed.
use cmdboss.Prelude.{
  eq_iff, ℕ, ◌+◌, ◌≡◌, refl, sym, ap, ◌∙◌, String, none, some, map, Dict, merge, Option-cases,
  Bool-cases, inl, inr, map-update_first, subst,
}
use cmdboss.Errors.Result.{Result, ok, err}
use cmdboss.Errors.Result.Runs.{bind_ok, then_ok, transaction_ok}
use cmdboss.Value.{Value}
use cmdboss.Documents.{CiDoc, Payload, serialize}
use cmdboss.Driver.{Driver}
use cmdboss.Driver.Laws.{update_unique_ok}
use cmdboss.Audit.{Action}
use cmdboss.Registry.{TypeDoc, Model}
use cmdboss.Store.{Store, Config, Readings, spelling, record_audit, emit, event_of}
use cmdboss.Store.Frame.{SameData, SameData-trans}
use cmdboss.Repository.{has_id, type_doc, compiled, validated}
use cmdboss.Repository.Prepared.{type_doc-SameData, compiled-SameData, validated-state}
use cmdboss.Repository.Create.{insert_ci}
use cmdboss.Repository.Discovery.{
  Applied, Origin, discovered, rediscovered, touched, comes_from, same_fields, discovery_entry,
  apply_new, refresh, rewrite, rewritten, write_changes, apply_existing, apply_body,
  apply_discovery,
}

module _ (mongo : Driver) (cfg : Config mongo) where
  -- what a client of a CI sees of it, its provenance apart
  abbrev pub contents : CiDoc → Dict Value × ℕ
  contents d = (d.fields, d.meta.revision)

  -- nothing but provenance has been written
  unfoldable pub SameContents : String → Store mongo → Store mongo → Type 0
  SameContents type_name s s' =
      (map contents (mongo.docs (s'.cis type_name)) ≡ map contents (mongo.docs (s.cis type_name)))
      × (s'.edges ≡ s.edges)
      × (s'.audit ≡ s.audit)
      × (s'.outbox ≡ s.outbox)

  -- the action that a run returns, if it returns
  last_action : Result (String × Applied) × Store mongo → Applied
  last_action (ok x, s) = x.1
  last_action (err e, s) = Applied.unchanged

  apply_new-eq-created :
      (r : Readings) (type_name : String) (t : TypeDoc) (model : Model) (data' : Dict Value)
      (o : Origin) (actor : String) (s s' : Store mongo) (x : String × Applied)
      → apply_new mongo cfg r type_name t (validated mongo cfg model) data' o actor s ≡ (ok x, s')
      → x.1 ≡ Applied.created
  unfolding apply_new last_action
  apply_new-eq-created r type_name t model data' o actor s s' x h =
      let (fields, s1, h1, k1) = bind_ok (validated mongo cfg model data') _ s s' x h in
      let doc = discovered r type_name t o actor fields in
      let item = serialize (spelling mongo cfg) doc in
      let (s2, h2, k2) = then_ok (insert_ci mongo cfg type_name doc) _ s1 s' x k1 in
      let (s3, h3, k3) =
        then_ok
          (record_audit mongo cfg r
            (discovery_entry mongo cfg Action.create type_name item.id t o actor none item 1))
          _ s2 s' x k2 in
      let (s4, h4, k4) =
        then_ok
          (emit mongo r (event_of mongo r "ci.created" type_name item.id actor (Payload.item item)))
          _ s3 s' x k3 in
      sym (ap (λ y. last_action y) k4)

  write_changes-eq-updated :
      (r : Readings) (type_name : String) (t : TypeDoc) (fields : Dict Value) (o : Origin)
      (actor : String) (d : CiDoc) (s s' : Store mongo) (x : String × Applied)
      → write_changes mongo cfg r type_name t fields o actor d s ≡ (ok x, s')
      → x.1 ≡ Applied.updated
  unfolding write_changes last_action
  write_changes-eq-updated r type_name t fields o actor d s s' x h =
      let before = serialize (spelling mongo cfg) d in
      let revision = d.meta.revision + 1 in
      let (current, s1, h1, k1) =
        bind_ok (rewrite mongo cfg type_name d (rediscovered r t o actor revision fields)) _ s s' x
          h in
      let after = serialize (spelling mongo cfg) current in
      let (s2, h2, k2) =
        then_ok
          (record_audit mongo cfg r (
            discovery_entry mongo cfg Action.update type_name after.id t o actor (some before) after
              revision))
          _ s1 s' x k1 in
      let (s3, h3, k3) =
        then_ok
          (emit mongo r
            (event_of mongo r "ci.updated" type_name after.id actor (Payload.item after)))
          _ s2 s' x k2 in
      sym (ap (λ y. last_action y) k3)

  rewrite-SameContents :
      (r : Readings) (type_name : String) (o : Origin) (d : CiDoc) (s s' : Store mongo)
      (new : CiDoc)
      → rewrite mongo cfg type_name d (touched r o) s ≡ (ok new, s')
      → SameContents type_name s s'
  unfolding rewrite rewritten SameContents touched
  rewrite-SameContents r type_name o d s s' new h =
      let same = cfg.same_ci type_name in
      let q = has_id d.id in
      elim (Option-cases (mongo.update_unique same q (touched r o) (s.cis type_name))) [
        | inl e ↦ cc (rw (rewrite, e, rewritten) at h)
        | inr (c, e) ↦
            let k = rw (rewrite, e, rewritten) at h in
            rw
              (
                sym (ap (λ y. y.1) k),
                update_unique_ok mongo same q (touched r o) (s.cis type_name) c e,
              )
              (
                rw
                    (
                      (eq_iff type_name type_name).1 refl,
                      mongo.docs-update_one q (touched r o) (s.cis type_name),
                    )
                    (map-update_first contents q (touched r o) (mongo.docs (s.cis type_name))
                      (λ a. refl)),
                refl,
                refl,
                refl,
              )
      ]

  refresh-SameContents :
      (r : Readings) (type_name : String) (o : Origin) (d : CiDoc) (s s' : Store mongo)
      (x : String × Applied)
      → refresh mongo cfg r type_name o d s ≡ (ok x, s')
      → SameContents type_name s s'
  unfolding refresh SameContents
  refresh-SameContents r type_name o d s s' x h =
      let (new, t, h1, k1) = bind_ok (rewrite mongo cfg type_name d (touched r o)) _ s s' x h in
      let end : t ≡ s' = ap (λ y. y.1) k1 in
      rewrite-SameContents r type_name o d s s' new (rw (← end) h1)

  apply_existing-SameContents :
      (r : Readings) (type_name : String) (t : TypeDoc) (model : Model) (data' : Dict Value)
      (o : Origin) (actor : String) (d : CiDoc) (s s' : Store mongo) (id : String)
      → apply_existing mongo cfg r type_name t (validated mongo cfg model) data' o actor d s
        ≡ (ok (id, Applied.unchanged), s')
      → SameContents type_name s s'
  unfolding apply_existing
  apply_existing-SameContents r type_name t model data' o actor d s s' id h =
      let x : String × Applied = (id, Applied.unchanged) in
      let (fields, s1, h1, k1) =
        bind_ok (validated mongo cfg model (merge d.fields data')) _ s s' x h in
      let (normal, s2, h2, k2) = bind_ok (validated mongo cfg model d.fields) _ s1 s' x k1 in
      let start : s2 ≡ s =
        validated-state mongo cfg model d.fields s1 s2 (ok normal) h2
        ∙ validated-state mongo cfg model (merge d.fields data') s s1 (ok fields) h1 in
      elim (Bool-cases (same_fields fields normal)) [
        | inl e ↦
            subst (λ u. SameContents type_name u s') start
              (refresh-SameContents r type_name o d s2 s' x (rw e at k2))
        | inr e ↦
            let k = write_changes-eq-updated r type_name t fields o actor d s2 s' x (rw e at k2) in
            cc
      ]

  SameContents-frame :
      (type_name : String) (s u s' : Store mongo)
      → SameData mongo s u
      → SameContents type_name u s'
      → SameContents type_name s s'
  unfolding SameData SameContents
  SameContents-frame type_name s u s' (a, b, c, d) (i, j, k, l) = (rw a at i, cc, cc, cc)

  -- A discovered CI that is reported as unchanged has no other fields and no other revision than
  -- before, nor has any other CI of its type; the relationships, the log and the outbox are the same.
  pub discovery_unchanged :
      (r : Readings) (type_name : String) (data' : Dict Value) (o : Origin) (actor : String)
      (s s' : Store mongo) (id : String)
      → apply_discovery mongo cfg r type_name data' o actor s ≡ (ok (id, Applied.unchanged), s')
      → SameContents type_name s s'
  unfolding apply_discovery apply_body
  discovery_unchanged r type_name data' o actor s s' id h =
      let x : String × Applied = (id, Applied.unchanged) in
      let (t, s1, h1, k1) = bind_ok (type_doc mongo cfg r type_name) _ s s' x h in
      let (model, s2, h2, k2) = bind_ok (compiled mongo cfg r type_name) _ s1 s' x k1 in
      let same =
        SameData-trans mongo s s1 s2 (type_doc-SameData mongo cfg r type_name s s1 (ok t) h1)
          (compiled-SameData mongo cfg r type_name s1 s2 (ok model) h2) in
      let run =
        transaction_ok cfg.txn_enabled
          (apply_body mongo cfg r type_name t (validated mongo cfg model) data' o actor) s2 s' x
          k2 in
      elim (Option-cases (mongo.find_one (comes_from o) (s2.cis type_name))) [
        | inl e ↦
            let k =
              apply_new-eq-created r type_name t model data' o actor s2 s' x
                (rw (apply_body, e) at run) in
            cc
        | inr (d, e) ↦ SameContents-frame type_name s s2 s' same (
            apply_existing-SameContents r type_name t model data' o actor d s2 s' id
              (rw (apply_body, e) at run))
      ]

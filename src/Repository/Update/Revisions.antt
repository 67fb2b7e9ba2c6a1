-- ===== src/Repository/Update/Revisions.antt =====
-- `update` as a whole: revisions, lost updates, and an update that raises.
use cmdboss.Prelude.{
  ℕ, ◌+◌, ◌≡◌, ◌≢◌, ◌⊎◌, refl, sym, ◌∙◌, String, Bool, true, Option, some, Dict, inl, inr, arith,
  some_injective, eq_iff,
}
use cmdboss.Errors.{Error}
use cmdboss.Errors.Result.{Result, ok, err, transaction}
use cmdboss.Errors.Result.Runs.{bind-cases, transaction_ok, transaction_err}
use cmdboss.Value.{Value, Number}
use cmdboss.Documents.{CiDoc, Item}
use cmdboss.Driver.{Driver}
use cmdboss.Driver.Laws.{update-Distinct}
use cmdboss.Registry.{TypeDoc, Model}
use cmdboss.Store.{Store, Config, Readings, Caller, put_cis}
use cmdboss.Store.Frame.{
  SameData, SameData-refl, SameData-trans, SameData-cis, Reported-frame, Reported-cis,
  put_cis-SameData,
}
use cmdboss.Repository.{has_id, type_doc, compiled, validated, parse_object_id}
use cmdboss.Repository.Prepared.{
  type_doc-SameData, compiled-SameData, parse_object_id-cases, parse_object_id_ok,
}
use cmdboss.Repository.Update.{edited, at_revision, update_body, update}
use cmdboss.Repository.Update.Cas.{
  same_ci, HasUniqueIds, Updated, update_body_ok, revision_entry, updated_event,
}

module _ (mongo : Driver) (cfg : Config mongo) where
  -- `update` raises before its transaction, or comes to it with the same records
  update-cases :
      (r : Readings) (type_name item_id : String) (payload : Dict Value) (expected : Option Number)
      (partial : Bool) (caller : Caller) (s s' : Store mongo) (x : Result Item)
      → update mongo cfg r type_name item_id payload expected partial caller s ≡ (x, s')
      → ((e : Error) × SameData mongo s s' × (x ≡ err e))
        ⊎ ((t : TypeDoc) × (model : Model) × (oid : ℕ) × (u : Store mongo) × SameData mongo s u
            × (mongo.object_id item_id ≡ some oid)
            × (transaction cfg.txn_enabled
                  (update_body mongo cfg r type_name item_id oid t
                    (validated mongo cfg model)
                    payload
                    expected
                    partial
                    caller)
                  u
                ≡ (x, s')))
  unfolding update
  update-cases r type_name item_id payload expected partial caller s s' x h =
      elim (bind-cases (type_doc mongo cfg r type_name) _ s s' x h) [
        | inl (e, h1, raised) ↦
            inl (e, type_doc-SameData mongo cfg r type_name s s' (err e) h1, raised)
        | inr (t, s1, h1, k1) ↦
            let same1 = type_doc-SameData mongo cfg r type_name s s1 (ok t) h1 in
            elim (bind-cases (compiled mongo cfg r type_name) _ s1 s' x k1) [
              | inl (e, h2, raised) ↦ inl (
                e,
                SameData-trans mongo s s1 s' same1
                    (compiled-SameData mongo cfg r type_name s1 s' (err e) h2),
                raised,
              )
              | inr (model, s2, h2, k2) ↦
                  let same2 =
                    SameData-trans mongo s s1 s2 same1
                      (compiled-SameData mongo cfg r type_name s1 s2 (ok model) h2) in
                  elim (bind-cases (parse_object_id mongo cfg item_id) _ s2 s' x k2) [
                    | inl (e, h3, raised) ↦ inl (
                      e,
                      rw (parse_object_id-cases mongo cfg item_id s2 s' (err e) h3) same2,
                      raised,
                    )
                    | inr (oid, s3, h3, k3) ↦ inr (
                      t,
                      model,
                      oid,
                      s3,
                      rw (parse_object_id-cases mongo cfg item_id s2 s3 (ok oid) h3) same2,
                      parse_object_id_ok mongo cfg item_id s2 s3 oid h3,
                      k3,
                    )
                  ]
            ]
      ]

  unique-SameData :
      (type_name : String) (s u : Store mongo)
      → SameData mongo s u
      → HasUniqueIds mongo cfg type_name s
      → HasUniqueIds mongo cfg type_name u
  unfolding HasUniqueIds
  unique-SameData type_name s u same h = rw (SameData-cis mongo s u same) h

  Updated-frame :
      (r : Readings) (type_name item_id : String) (oid : ℕ) (t : TypeDoc) (expected : Option Number)
      (caller : Caller) (item : Item) (s u s' : Store mongo)
      → SameData mongo s u
      → Updated mongo cfg r type_name item_id oid t expected caller item u s'
      → Updated mongo cfg r type_name item_id oid t expected caller item s s'
  unfolding Updated
  Updated-frame r type_name item_id oid t expected caller item s u s' same
        (old, fields, c, found, current, made, after, returned, reported) =
      let cis = SameData-cis mongo s u same in
      let new = edited r caller.actor t.version (old.meta.revision + 1) fields old in
      (
        old,
        fields,
        c,
        rw cis at found,
        current,
        rw cis at made,
        after,
        returned,
        Reported-frame mongo cfg r
            (revision_entry mongo cfg r type_name item_id t.version old new caller)
            (updated_event mongo cfg r type_name item_id new caller) (put_cis mongo type_name c s)
            s' (put_cis mongo type_name c u) s' (put_cis-SameData mongo type_name c s u same)
            (SameData-refl mongo s') reported,
      )

  -- the collection that an update leaves
  Updated-cis :
      (r : Readings) (type_name item_id : String) (oid : ℕ) (t : TypeDoc) (expected : Option Number)
      (caller : Caller) (item : Item) (s s' : Store mongo)
      → Updated mongo cfg r type_name item_id oid t expected caller item s s'
      → (old new : CiDoc) × (mongo.find_one (has_id oid) (s.cis type_name) ≡ some old)
        × (expected ≡ some (Number.above old.meta.revision))
        × (mongo.find_one (has_id oid) (s'.cis type_name) ≡ some new)
        × (new.meta.revision ≡ old.meta.revision + 1)
  unfolding Updated
  Updated-cis r type_name item_id oid t expected caller item s s'
        (old, fields, c, found, current, made, after, returned, reported) =
      let new = edited r caller.actor t.version (old.meta.revision + 1) fields old in
      let cis =
        Reported-cis mongo cfg r
          (revision_entry mongo cfg r type_name item_id t.version old new caller)
          (updated_event mongo cfg r type_name item_id new caller) (put_cis mongo type_name c s) s'
          reported in
      (old, new, found, current, rw (cis, (eq_iff type_name type_name).1 refl) after, refl)

  -- Where the ids of the type are unique, an update that returns was made under the current
  -- revision of the document, which it has replaced by its edit at the next revision, with one
  -- record in the log and one event in the outbox; nothing else is written.
  pub update_effects :
      (r : Readings) (type_name item_id : String) (payload : Dict Value) (expected : Option Number)
      (partial : Bool) (caller : Caller) (s s' : Store mongo) (item : Item)
      → HasUniqueIds mongo cfg type_name s
      → update mongo cfg r type_name item_id payload expected partial caller s ≡ (ok item, s')
      → (t : TypeDoc) × (oid : ℕ) × (mongo.object_id item_id ≡ some oid)
        × Updated mongo cfg r type_name item_id oid t expected caller item s s'
  update_effects r type_name item_id payload expected partial caller s s' item unique h =
      elim (update-cases r type_name item_id payload expected partial caller s s' (ok item) h) [
        | inl (e, same, raised) ↦ cc
        | inr (t, model, oid, u, same, id, k) ↦ (
          t,
          oid,
          id,
          Updated-frame r type_name item_id oid t expected caller item s u s' same (
              update_body_ok mongo cfg r type_name item_id oid t model payload expected partial
                caller u s' item (unique-SameData type_name s u same unique)
                (transaction_ok cfg.txn_enabled
                  (update_body mongo cfg r type_name item_id oid t (validated mongo cfg model)
                    payload expected partial caller)
                  u s' item k)),
        )
      ]

  unique-Updated :
      (r : Readings) (type_name item_id : String) (oid : ℕ) (t : TypeDoc) (expected : Option Number)
      (caller : Caller) (item : Item) (s s' : Store mongo)
      → HasUniqueIds mongo cfg type_name s
      → Updated mongo cfg r type_name item_id oid t expected caller item s s'
      → HasUniqueIds mongo cfg type_name s'
  unfolding Updated HasUniqueIds
  unique-Updated r type_name item_id oid t expected caller item s s' unique
        (old, fields, c, found, current, made, after, returned, reported) =
      let f = edited r caller.actor t.version (old.meta.revision + 1) fields in
      let cis =
        Reported-cis mongo cfg r
          (revision_entry mongo cfg r type_name item_id t.version old (f old) caller)
          (updated_event mongo cfg r type_name item_id (f old) caller) (put_cis mongo type_name c s)
          s' reported in
      rw (cis, (eq_iff type_name type_name).1 refl, made)
        (update-Distinct mongo same_ci (at_revision oid expected) f (s.cis type_name) (λ a b. refl)
          (λ a b. refl) unique)

  not_twice :
      (expected : Option Number) (old new : CiDoc)
      → expected ≡ some (Number.above old.meta.revision)
      → new.meta.revision ≡ old.meta.revision + 1
      → expected ≢ some (Number.above new.meta.revision)
  not_twice expected old new h k e =
      let same : Number.above old.meta.revision ≡ Number.above new.meta.revision =
        some_injective (sym h ∙ e) in
      ground arith

  -- Where the ids of the type are unique and an update has returned, a second update of the same
  -- document under the same expected revision raises.
  pub lost_update :
      (r r' : Readings) (type_name item_id : String) (payload payload' : Dict Value)
      (expected : Option Number) (partial partial' : Bool) (caller caller' : Caller)
      (s s' s'' : Store mongo) (item : Item) (x : Result Item)
      → HasUniqueIds mongo cfg type_name s
      → update mongo cfg r type_name item_id payload expected partial caller s ≡ (ok item, s')
      → update mongo cfg r' type_name item_id payload' expected partial' caller' s' ≡ (x, s'')
      → (e : Error) × (x ≡ err e)
  lost_update r r' type_name item_id payload payload' expected partial partial' caller caller' s s'
        s'' item (err e) unique h k =
      (e, refl)
  lost_update r r' type_name item_id payload payload' expected partial partial' caller caller' s s'
        s'' item (ok item') unique h k =
      let (t, oid, id, first) =
        update_effects r type_name item_id payload expected partial caller s s' item unique h in
      let (t', oid', id', second) =
        update_effects r' type_name item_id payload' expected partial' caller' s' s'' item'
          (unique-Updated r type_name item_id oid t expected caller item s s' unique first) k in
      let (old, new, found, current, after, next) =
        Updated-cis r type_name item_id oid t expected caller item s s' first in
      let (old', new', found', current', after', next') =
        Updated-cis r' type_name item_id oid' t' expected caller' item' s' s'' second in
      let same : oid' ≡ oid = some_injective (sym id' ∙ id) in
      let seen : new ≡ old' = some_injective (sym after ∙ (rw same at found')) in
      absurd (not_twice expected old new current next (rw seen current'))

  -- With transactions, an update that raises leaves the records, the log and the outbox as they were.
  pub update_atomic :
      (r : Readings) (type_name item_id : String) (payload : Dict Value) (expected : Option Number)
      (partial : Bool) (caller : Caller) (s s' : Store mongo) (x : Error)
      → cfg.txn_enabled ≡ true
      → update mongo cfg r type_name item_id payload expected partial caller s ≡ (err x, s')
      → SameData mongo s s'
  update_atomic r type_name item_id payload expected partial caller s s' x on h =
      elim (update-cases r type_name item_id payload expected partial caller s s' (err x) h) [
        | inl (e, same, raised) ↦ same
        | inr (t, model, oid, u, same, id, k) ↦
            rw
              (transaction_err cfg.txn_enabled
                (update_body mongo cfg r type_name item_id oid t (validated mongo cfg model) payload
                  expected partial caller)
                u s' x on k)
              same
      ]

-- ===== src/Store/Frame.antt =====
-- What the shared steps of the repositories change, and what they leave alone.
use cmdboss.Prelude.{◌≡◌, refl, String, Option-cases, ◌∷◌, [], ◌++◌, inl, inr, sym, ap}
use cmdboss.Errors.Result.{Result, ok, err}
use cmdboss.Documents.{CiDoc, Event}
use cmdboss.Driver.{Driver}
use cmdboss.Driver.Laws.{insert_docs}
use cmdboss.Audit
use cmdboss.Audit.{Entry, entry_doc}
use cmdboss.Outbox
use cmdboss.Outbox.{new_row}
use cmdboss.Store.{Store, Config, Readings, spelling, put_cis, record_audit, emit, audited, queued}

module _ (mongo : Driver) where
  -- the collections of the records, apart from the caches and the idempotency keys
  unfoldable pub SameData : Store mongo → Store mongo → Type 0
  SameData s s' =
      (s'.cis ≡ s.cis) × (s'.edges ≡ s.edges) × (s'.audit ≡ s.audit) × (s'.outbox ≡ s.outbox)

  -- the log and the outbox have grown by one row each, and the rest of the records is the same
  unfoldable pub Reported :
      Config mongo → Readings → Entry → Event → Store mongo → Store mongo → Type 0
  Reported cfg r entry event s s' =
      (s'.cis ≡ s.cis)
      × (s'.edges ≡ s.edges)
      × (mongo.docs s'.audit
          ≡ mongo.docs s.audit ++ entry_doc (spelling mongo cfg) r.audit_id r.audited_at entry ∷ [])
      × (mongo.docs s'.outbox ≡ mongo.docs s.outbox ++ new_row r.queued_at event ∷ [])

  pub SameData-refl : (s : Store mongo) → SameData s s
  unfolding SameData
  SameData-refl s = (refl, refl, refl, refl)

  pub SameData-trans : (s t u : Store mongo) → SameData s t → SameData t u → SameData s u
  unfolding SameData
  SameData-trans s t u (a, b, c, d) (e, f, g, h) = (cc, cc, cc, cc)

  pub record_audit_ok :
      (cfg : Config mongo) (r : Readings) (entry : Entry) (s s' : Store mongo) (u : Unit {0})
      → record_audit mongo cfg r entry s ≡ (ok u, s')
      → (s'.cis ≡ s.cis)
        × (s'.edges ≡ s.edges)
        × (s'.outbox ≡ s.outbox)
        × (mongo.docs s'.audit
            ≡ mongo.docs s.audit
              ++ entry_doc (spelling mongo cfg) r.audit_id r.audited_at entry ∷ [])
  unfolding record_audit Audit.append
  record_audit_ok cfg r entry s s' u h =
      let doc = entry_doc (spelling mongo cfg) r.audit_id r.audited_at entry in
      elim (Option-cases (mongo.insert_one Audit.same_id doc s.audit)) [
        | inl e ↦ cc (rw (e, audited) at h)
        | inr (c, e) ↦
            let k = rw (e, audited) at h in
            let (free, appended) = insert_docs mongo Audit.same_id doc s.audit c e in
            let t : record s { audit = c } ≡ s' = cc in rw (sym t) (refl, refl, refl, appended)
      ]

  pub emit_ok :
      (r : Readings) (event : Event) (s s' : Store mongo) (u : Unit {0})
      → emit mongo r event s ≡ (ok u, s')
      → (s'.cis ≡ s.cis)
        × (s'.edges ≡ s.edges)
        × (s'.audit ≡ s.audit)
        × (mongo.docs s'.outbox ≡ mongo.docs s.outbox ++ new_row r.queued_at event ∷ [])
  unfolding emit Outbox.add
  emit_ok r event s s' u h =
      elim (Option-cases (mongo.insert_one Outbox.same_id (new_row r.queued_at event) s.outbox)) [
        | inl e ↦ cc (rw (e, queued) at h)
        | inr (c, e) ↦
            let k = rw (e, queued) at h in
            let (free, appended) =
              insert_docs mongo Outbox.same_id (new_row r.queued_at event) s.outbox c e in
            let t : record s { outbox = c } ≡ s' = cc in rw (sym t) (refl, refl, refl, appended)
      ]

  -- the log and then the outbox
  pub Reported-compose :
      (cfg : Config mongo) (r : Readings) (entry : Entry) (event : Event) (s t s' : Store mongo)
      (u v : Unit {0})
      → record_audit mongo cfg r entry s ≡ (ok u, t)
      → emit mongo r event t ≡ (ok v, s')
      → Reported cfg r entry event s s'
  unfolding Reported
  Reported-compose cfg r entry event s t s' u v h k =
      let (a1, a2, a3, a4) = record_audit_ok cfg r entry s t u h in
      let (b1, b2, b3, b4) = emit_ok r event t s' v k in (cc, cc, rw b3 a4, rw a3 at b4)

  pub Reported-frame :
      (cfg : Config mongo) (r : Readings) (entry : Entry) (event : Event) (s s' t t' : Store mongo)
      → SameData s t
      → SameData t' s'
      → Reported cfg r entry event t t'
      → Reported cfg r entry event s s'
  unfolding Reported SameData
  Reported-frame cfg r entry event s s' t t' (a, b, c, d) (e, f, g, h) (i, j, k, l) =
      (cc, cc, rw (sym c, g) k, rw (sym d, h) l)

  -- the new collection of one type in two databases with the same records
  pub put_cis-SameData :
      (type : String) (c : mongo.Coll CiDoc) (s t : Store mongo)
      → SameData s t
      → SameData (put_cis mongo type c s) (put_cis mongo type c t)
  unfolding SameData
  put_cis-SameData type c s t (a, b, c', d) = (rw a refl, b, c', d)

  pub SameData-cis : (s t : Store mongo) → SameData s t → t.cis ≡ s.cis
  unfolding SameData
  SameData-cis s t same = same.0

  pub record_audit-idempotency :
      (cfg : Config mongo) (r : Readings) (entry : Entry) (s s' : Store mongo)
      (x : Result (Unit {0}))
      → record_audit mongo cfg r entry s ≡ (x, s')
      → s'.idempotency ≡ s.idempotency
  unfolding record_audit audited
  record_audit-idempotency cfg r entry s s' x h =
      elim (Audit.append mongo (spelling mongo cfg) r.audit_id r.audited_at entry s.audit)
          as (λ y. audited mongo s y ≡ (x, s') → s'.idempotency ≡ s.idempotency) [
            | ok c ↦ λ k. rw (sym (ap (λ y. y.1) k)) refl
            | err e ↦ λ k. rw (sym (ap (λ y. y.1) k)) refl
          ]
        h

  pub emit-idempotency :
      (r : Readings) (event : Event) (s s' : Store mongo) (x : Result (Unit {0}))
      → emit mongo r event s ≡ (x, s')
      → s'.idempotency ≡ s.idempotency
  unfolding emit queued
  emit-idempotency r event s s' x h =
      elim (Outbox.add mongo r.queued_at event s.outbox)
          as (λ y. queued mongo s y ≡ (x, s') → s'.idempotency ≡ s.idempotency) [
            | ok c ↦ λ k. rw (sym (ap (λ y. y.1) k)) refl
            | err e ↦ λ k. rw (sym (ap (λ y. y.1) k)) refl
          ]
        h

  pub Reported-cis :
      (cfg : Config mongo) (r : Readings) (entry : Entry) (event : Event) (s s' : Store mongo)
      → Reported cfg r entry event s s'
      → s'.cis ≡ s.cis
  unfolding Reported
  Reported-cis cfg r entry event s s' h = h.0

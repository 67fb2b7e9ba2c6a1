-- ===== src/Repository/Create/Replay.antt =====
-- A `create` under an Idempotency-Key, and the retry of the request.
use cmdboss.Prelude.{
  ℕ, ◌≡◌, ◌⊎◌, refl, sym, ap, ◌∙◌, String, none, some, Dict, inl, inr, Option-cases, eq_iff,
}
use cmdboss.Errors.{Error}
use cmdboss.Errors.Result.{Result, ok, err, transaction, ◌>>=◌}
use cmdboss.Errors.Result.Runs.{bind_ok, then_ok, transaction_ok, on_error_ok}
use cmdboss.Value.{Value}
use cmdboss.Documents.{CiDoc, Item, serialize}
use cmdboss.Driver.{Driver}
use cmdboss.Driver.Laws.{find_one-insert, find_one-update}
use cmdboss.Idempotency
use cmdboss.Idempotency.{IdempotencyDoc, Status, key_of, claim_doc, completed}
use cmdboss.Store.{Store, Config, Readings, Caller, record_audit, emit, spelling}
use cmdboss.Store.Frame.{SameData, record_audit-idempotency, emit-idempotency}
use cmdboss.Repository.Create.{
  new_ci, insert_ci, idempotency_precheck, create_body, create_write, create, idem_key, precheck,
  replay_or_write, replay_or_busy, release_key, claimed, store_response,
}
use cmdboss.Repository.Create.Effects.{creation, created}
use cmdboss.Repository.Create.Atomic.{create-cases}

module _ (mongo : Driver) (cfg : Config mongo) where
  -- the response of the key is kept in the database
  pub Remembers : String → String → Item → Store mongo → Type 0
  Remembers scope key item s =
      (rec : IdempotencyDoc) × (Idempotency.get mongo scope key s.idempotency ≡ some rec)
      × (rec.status ≡ Status.done)
      × (rec.response ≡ some item)

  insert_ci-idempotency :
      (type_name : String) (doc : CiDoc) (s s' : Store mongo) (x : Result (Unit {0}))
      → insert_ci mongo cfg type_name doc s ≡ (x, s')
      → s'.idempotency ≡ s.idempotency
  unfolding insert_ci
  insert_ci-idempotency type_name doc s s' x h =
      elim (Option-cases (mongo.insert_one (cfg.same_ci type_name) doc (s.cis type_name))) [
        | inl e ↦ cc (rw (insert_ci, e) at h)
        | inr (c, e) ↦ cc (rw (insert_ci, e) at h)
      ]

  stored_response :
      (r : Readings) (type_name : String) (doc : CiDoc) (caller : Caller) (key : String)
      (s s' : Store mongo) (item : Item)
      → create_body mongo cfg r type_name doc caller (some key) s ≡ (ok item, s')
      → s'.idempotency
        ≡ Idempotency.store_result mongo r.completed_at type_name key item s.idempotency
  unfolding create_body store_response
  stored_response r type_name doc caller key s s' item h =
      let (t1, h1, k1) = then_ok (insert_ci mongo cfg type_name doc) _ s s' item h in
      let (t2, h2, k2) =
        then_ok (record_audit mongo cfg r (creation mongo cfg r type_name doc caller)) _ t1 s' item
          k1 in
      let (t3, h3, k3) =
        then_ok (emit mongo r (created mongo cfg r type_name doc caller)) _ t2 s' item k2 in
      let i1 = insert_ci-idempotency type_name doc s t1 (ok tt) h1 in
      let i2 =
        record_audit-idempotency mongo cfg r (creation mongo cfg r type_name doc caller) t1 t2
          (ok tt) h2 in
      let i3 =
        emit-idempotency mongo r (created mongo cfg r type_name doc caller) t2 t3 (ok tt) h3 in
      let same : serialize (spelling mongo cfg) doc ≡ item = cc in
      sym (ap (λ y. y.1.idempotency) k3) ∙ rw (same, i3, i2, i1) refl

  -- a claimed key whose response is stored is remembered
  remembered :
      (at later : ℕ) (scope key : String) (item : Item) (s : Store mongo)
      (c : mongo.Coll IdempotencyDoc)
      → Idempotency.claim mongo at scope key s.idempotency ≡ some c
      → (rec : IdempotencyDoc) × (Idempotency.get mongo scope key
            (Idempotency.store_result mongo later scope key item c)
          ≡ some rec)
        × (rec.status ≡ Status.done)
        × (rec.response ≡ some item)
  unfolding Idempotency.get Idempotency.store_result Idempotency.claim
  remembered at later scope key item s c h =
      let id = key_of scope key in
      let q = Idempotency.has_id id in
      let found =
        find_one-insert mongo Idempotency.same_id q (claim_doc at id) s.idempotency c h
          (λ a hit. hit) ((eq_iff id id).1 refl) in
      (
        completed later item (claim_doc at id),
        find_one-update mongo q (completed later item) (claim_doc at id) c found
            ((eq_iff id id).1 refl),
        refl,
        refl,
      )

  claimed_none :
      (r : Readings) (scope key : String) (s t : Store mongo)
      → Idempotency.get mongo scope key s.idempotency ≡ none
      → precheck mongo cfg r scope (some key) s ≡ (ok none, t)
      → Idempotency.claim mongo r.claimed_at scope key s.idempotency ≡ some t.idempotency
  unfolding precheck idempotency_precheck claimed replay_or_busy
  claimed_none r scope key s t free h =
      elim (Option-cases (Idempotency.claim mongo r.claimed_at scope key s.idempotency)) [
        | inl e ↦ cc (rw (idempotency_precheck, free, claimed, e, free) at h)
        | inr (c, e) ↦
            let k = rw (idempotency_precheck, free, claimed, e) at h in
            e ∙ ap some (ap (λ y. y.1.idempotency) k)
      ]

  not_replayed :
      (r : Readings) (scope key : String) (item : Item) (s t : Store mongo)
      → Idempotency.get mongo scope key s.idempotency ≡ none
      → precheck mongo cfg r scope (some key) s ≡ (ok (some item), t)
      → ⊥
  unfolding precheck idempotency_precheck claimed replay_or_busy
  not_replayed r scope key item s t free h =
      elim (Option-cases (Idempotency.claim mongo r.claimed_at scope key s.idempotency)) [
        | inl e ↦ cc (rw (idempotency_precheck, free, claimed, e, free) at h)
        | inr (c, e) ↦ cc (rw (idempotency_precheck, free, claimed, e) at h)
      ]

  keyed_write-Remembers :
      (r : Readings) (type_name : String) (doc : CiDoc) (caller : Caller) (key : String)
      (s s' : Store mongo) (item : Item)
      → Idempotency.get mongo type_name key s.idempotency ≡ none
      → (precheck mongo cfg r type_name (some key)
            >>= replay_or_write mongo cfg r type_name doc caller (some key))
          s
        ≡ (ok item, s')
      → Remembers type_name key item s'
  unfolding replay_or_write create_write Remembers
  keyed_write-Remembers r type_name doc caller key s s' item free h =
      let (i, t, h1, k1) =
        bind_ok (precheck mongo cfg r type_name (some key))
          (replay_or_write mongo cfg r type_name doc caller (some key)) s s' item h in
      elim i
          as (λ i.
            precheck mongo cfg r type_name (some key) s ≡ (ok i, t)
            → replay_or_write mongo cfg r type_name doc caller (some key) i t ≡ (ok item, s')
            → Remembers type_name key item s') [
              | some i ↦ λ h1 k1. absurd (not_replayed r type_name key i s t free h1)
              | none ↦ λ h1 k1.
                  let body = create_body mongo cfg r type_name doc caller (some key) in
                  let run = transaction_ok cfg.txn_enabled body t s' item (
                    on_error_ok (release_key mongo cfg type_name (some key))
                      (transaction cfg.txn_enabled body) t s' item k1) in
                  rw (stored_response r type_name doc caller key t s' item run) (
                    remembered r.claimed_at r.completed_at type_name key item s t.idempotency
                      (claimed_none r type_name key s t free h1))
            ]
        h1 k1

  -- A `create` that returns under a key that the settings accept, and of which nothing was known,
  -- remembers its response with the key.
  pub create-Remembers :
      (r : Readings) (type_name : String) (payload : Dict Value) (caller : Caller) (key : String)
      (s s' : Store mongo) (item : Item)
      → idem_key mongo cfg (some key) ≡ some key
      → Idempotency.get mongo type_name key s.idempotency ≡ none
      → create mongo cfg r type_name payload caller (some key) s ≡ (ok item, s')
      → Remembers type_name key item s'
  create-Remembers r type_name payload caller key s s' item used free h =
      elim (create-cases mongo cfg r type_name payload caller (some key) (some key) s s' (ok item)
        used h) [
          | inl (e, same, raised) ↦ cc
          | inr (t, fields, u, same, kept, k) ↦
              keyed_write-Remembers r type_name (new_ci r type_name t caller.actor fields) caller
                key u s' item (rw kept free) k
        ]

  precheck_replays :
      (r : Readings) (scope key : String) (item : Item) (s : Store mongo)
      → Remembers scope key item s
      → precheck mongo cfg r scope (some key) s ≡ (ok (some item), s)
  unfolding Remembers precheck idempotency_precheck replay_or_busy
  precheck_replays r scope key item s (rec, found, done, stored) =
      rw (idempotency_precheck, found, done, stored) refl

  -- A `create` under a key that is in use by the settings and remembered writes no record, no
  -- entry of the log and no event, whatever its payload, and returns the response that is kept
  -- unless it raises.
  pub create_replays :
      (r : Readings) (type_name : String) (payload : Dict Value) (caller : Caller) (key : String)
      (s s' : Store mongo) (item : Item) (x : Result Item)
      → idem_key mongo cfg (some key) ≡ some key
      → Remembers type_name key item s
      → create mongo cfg r type_name payload caller (some key) s ≡ (x, s')
      → SameData mongo s s' × ((x ≡ ok item) ⊎ ((e : Error) × (x ≡ err e)))
  unfolding replay_or_write Remembers
  create_replays r type_name payload caller key s s' item x used known h =
      elim (create-cases mongo cfg r type_name payload caller (some key) (some key) s s' x used h) [
        | inl (e, same, raised) ↦ (same, inr (e, raised))
        | inr (t, fields, u, same, kept, k) ↦
            let k' = rw (precheck_replays r type_name key item u (rw kept known)) at k in
            (rw (ap (λ y. y.1) k') at same, inl (sym (ap (λ y. y.0) k')))
      ]

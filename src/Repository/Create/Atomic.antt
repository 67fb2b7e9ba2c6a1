-- ===== src/Repository/Create/Atomic.antt =====
-- `create` as a whole: the effects of one that succeeds, and that one that raises has none.
use cmdboss.Prelude.{
  ◌≡◌, refl, sym, ap, subst, ◌⊎◌, String, true, Option, none, some, Dict, inl, inr, Option-cases,
}
use cmdboss.Errors.{Error}
use cmdboss.Errors.Result.{Result, ok, err, transaction, ◌>>=◌}
use cmdboss.Errors.Result.Runs.{
  bind-cases, transaction_ok, transaction_err, on_error_ok, on_error_err,
}
use cmdboss.Value.{Value}
use cmdboss.Documents.{CiDoc, Item}
use cmdboss.Driver.{Driver}
use cmdboss.Idempotency
use cmdboss.Registry.{TypeDoc}
use cmdboss.Store.{Store, Config, Readings, Caller}
use cmdboss.Store.Frame.{SameData, SameData-refl, SameData-trans}
use cmdboss.Repository.{type_doc, compiled, validated}
use cmdboss.Repository.Create.{
  new_ci, idempotency_precheck, create_body, create_write, create, idem_key, precheck,
  replay_or_write, release_key, claimed,
}
use cmdboss.Repository.Create.Effects.{Created, Created-frame, create_body_ok}
use cmdboss.Repository.Prepared.{
  type_doc-SameData, compiled-SameData, prepared-SameData, prepared-idempotency,
}

module _ (mongo : Driver) (cfg : Config mongo) where
  -- `create` raises before it looks at the key, or comes to the write with a new document
  pub create-cases :
      (r : Readings) (type_name : String) (payload : Dict Value) (caller : Caller)
      (key idem : Option String) (s s' : Store mongo) (x : Result Item)
      → idem_key mongo cfg key ≡ idem
      → create mongo cfg r type_name payload caller key s ≡ (x, s')
      → ((e : Error) × SameData mongo s s' × (x ≡ err e))
        ⊎ ((t : TypeDoc) × (fields : Dict Value) × (u : Store mongo) × SameData mongo s u
            × (u.idempotency ≡ s.idempotency)
            × ((precheck mongo cfg r type_name idem
                    >>= replay_or_write mongo cfg r type_name
                        (new_ci r type_name t caller.actor fields)
                        caller
                        idem)
                  u
                ≡ (x, s')))
  unfolding create
  create-cases r type_name payload caller key idem s s' x used h =
      elim (bind-cases (type_doc mongo cfg r type_name) _ s s' x h) [
        | inl (e, h1, raised) ↦
            inl (e, type_doc-SameData mongo cfg r type_name s s' (err e) h1, raised)
        | inr (t, s1, h1, k1) ↦ elim (bind-cases (compiled mongo cfg r type_name) _ s1 s' x k1) [
          | inl (e, h2, raised) ↦ inl (
            e,
            SameData-trans mongo s s1 s' (type_doc-SameData mongo cfg r type_name s s1 (ok t) h1)
                (compiled-SameData mongo cfg r type_name s1 s' (err e) h2),
            raised,
          )
          | inr (model, s2, h2, k2) ↦
              elim (bind-cases (validated mongo cfg model payload) _ s2 s' x k2) [
                | inl (e, h3, raised) ↦ inl (
                  e,
                  prepared-SameData mongo cfg r type_name payload s s1 s2 s' model (ok t) (ok model)
                      (err e) h1 h2 h3,
                  raised,
                )
                | inr (fields, s3, h3, k3) ↦ inr (
                  t,
                  fields,
                  s3,
                  prepared-SameData mongo cfg r type_name payload s s1 s2 s3 model (ok t) (ok model)
                      (ok fields) h1 h2 h3,
                  prepared-idempotency mongo cfg r type_name payload s s1 s2 s3 model (ok t)
                      (ok model) (ok fields) h1 h2 h3,
                  subst
                      (λ i.
                        (precheck mongo cfg r type_name i
                            >>= replay_or_write mongo cfg r type_name
                                (new_ci r type_name t caller.actor fields) caller i)
                          s3
                        ≡ (x, s'))
                      used k3,
                )
              ]
        ]
      ]

  -- A `create` without a key that returns has written exactly the new document, at revision 1, one
  -- record of it in the log and one pending event in the outbox; the other records are as before.
  pub create_effects :
      (r : Readings) (type_name : String) (payload : Dict Value) (caller : Caller)
      (s s' : Store mongo) (item : Item)
      → create mongo cfg r type_name payload caller none s ≡ (ok item, s')
      → (t : TypeDoc) × (fields : Dict Value) × Created mongo cfg r type_name
          (new_ci r type_name t caller.actor fields)
          caller
          item
          s
          s'
  unfolding precheck replay_or_write idem_key create_write
  create_effects r type_name payload caller s s' item h =
      elim (create-cases r type_name payload caller none none s s' (ok item) refl h) [
        | inl (e, same, raised) ↦ cc
        | inr (t, fields, u, same, kept, k) ↦
            let doc = new_ci r type_name t caller.actor fields in
            let body = create_body mongo cfg r type_name doc caller none in
            let run = transaction_ok cfg.txn_enabled body u s' item (
              on_error_ok (release_key mongo cfg type_name none) (transaction cfg.txn_enabled body)
                u s' item k) in
            (
              t,
              fields,
              Created-frame mongo cfg r type_name doc caller item s u s' same
                  (create_body_ok mongo cfg r type_name doc caller none u s' item run),
            )
      ]

  claimed-SameData :
      (r : Readings) (scope key : String) (s s' : Store mongo) (x : Result (Option Item))
      → claimed mongo cfg r scope key s ≡ (x, s')
      → SameData mongo s s'
  unfolding claimed SameData
  claimed-SameData r scope key s s' x h =
      elim (Option-cases (Idempotency.claim mongo r.claimed_at scope key s.idempotency)) [
        | inl e ↦
            let k = ap (λ y. y.1) (rw (claimed, e) at h) in rw (sym k) (refl, refl, refl, refl)
        | inr (c, e) ↦
            let k = ap (λ y. y.1) (rw (claimed, e) at h) in rw (sym k) (refl, refl, refl, refl)
      ]

  pub precheck-SameData :
      (r : Readings) (scope : String) (idem : Option String) (s s' : Store mongo)
      (x : Result (Option Item))
      → precheck mongo cfg r scope idem s ≡ (x, s')
      → SameData mongo s s'
  unfolding precheck idempotency_precheck
  precheck-SameData r scope none s s' x h = rw (sym (ap (λ y. y.1) h)) (SameData-refl mongo s)
  precheck-SameData r scope (some key) s s' x h =
      elim (Option-cases (Idempotency.get mongo scope key s.idempotency)) [
        | inl e ↦ claimed-SameData r scope key s s' x (rw (idempotency_precheck, e) at h)
        | inr (rec, e) ↦
            let k = ap (λ y. y.1) (rw (idempotency_precheck, e) at h) in
            rw (sym k) (SameData-refl mongo s)
      ]

  release-SameData :
      (scope : String) (idem : Option String) (s : Store mongo)
      → SameData mongo s (release_key mongo cfg scope idem s)
  unfolding release_key SameData
  release-SameData scope none s = (refl, refl, refl, refl)
  release-SameData scope (some key) s = (refl, refl, refl, refl)

  create_write-SameData :
      (r : Readings) (type_name : String) (doc : CiDoc) (caller : Caller) (idem : Option String)
      (s s' : Store mongo) (x : Error)
      → cfg.txn_enabled ≡ true
      → create_write mongo cfg r type_name doc caller idem s ≡ (err x, s')
      → SameData mongo s s'
  unfolding create_write
  create_write-SameData r type_name doc caller idem s s' x on h =
      let body = create_body mongo cfg r type_name doc caller idem in
      let (t, raised, released) =
        on_error_err (release_key mongo cfg type_name idem) (transaction cfg.txn_enabled body) s s'
          x h in
      rw (released, transaction_err cfg.txn_enabled body s t x on raised)
        (release-SameData type_name idem s)

  keyed_write-SameData :
      (r : Readings) (type_name : String) (doc : CiDoc) (caller : Caller) (idem : Option String)
      (s s' : Store mongo) (x : Error)
      → cfg.txn_enabled ≡ true
      → (precheck mongo cfg r type_name idem
            >>= replay_or_write mongo cfg r type_name doc caller idem)
          s
        ≡ (err x, s')
      → SameData mongo s s'
  unfolding replay_or_write
  keyed_write-SameData r type_name doc caller idem s s' x on h =
      elim (bind-cases (precheck mongo cfg r type_name idem)
        (replay_or_write mongo cfg r type_name doc caller idem) s s' (err x) h) [
          | inl (e, h1, raised) ↦ precheck-SameData r type_name idem s s' (err e) h1
          | inr (some item, t, h1, k1) ↦ cc
          | inr (none, t, h1, k1) ↦
              SameData-trans mongo s t s' (precheck-SameData r type_name idem s t (ok none) h1)
                (create_write-SameData r type_name doc caller idem t s' x on k1)
        ]

  -- With transactions, a `create` that raises leaves the records, the log and the outbox as they
  -- were, whatever step it raised at.
  pub create_atomic :
      (r : Readings) (type_name : String) (payload : Dict Value) (caller : Caller)
      (key : Option String) (s s' : Store mongo) (x : Error)
      → cfg.txn_enabled ≡ true
      → create mongo cfg r type_name payload caller key s ≡ (err x, s')
      → SameData mongo s s'
  create_atomic r type_name payload caller key s s' x on h =
      elim (create-cases r type_name payload caller key (idem_key mongo cfg key) s s' (err x) refl
        h) [
          | inl (e, same, raised) ↦ same
          | inr (t, fields, u, same, kept, k) ↦ SameData-trans mongo s u s' same (
              keyed_write-SameData r type_name (new_ci r type_name t caller.actor fields) caller
                (idem_key mongo cfg key) u s' x on k)
        ]

-- ===== src/Http/Atomic.antt =====
-- The writes of a CI over HTTP, through the gate of their scope and the exception handlers.
use cmdboss.Prelude.{
  ℕ, ◌≡◌, refl, sym, ap, ◌⊎◌, inl, inr, String, Bool, true, false, Option, Dict, Memᴰ,
}
use cmdboss.Value.{Value}
use cmdboss.Errors.{Error}
use cmdboss.Errors.Result.{ok, err, Exec, lift}
use cmdboss.Errors.Result.Runs.{Run-cases, bind_ok, bind-cases}
use cmdboss.Driver.{Driver}
use cmdboss.RateLimit.{RateLimiter}
use cmdboss.Security.{Principal, has_scope, require}
use cmdboss.Security.Access.{require_ok}
use cmdboss.Store.{Store, Config, Readings}
use cmdboss.Store.Frame.{SameData, SameData-refl}
use cmdboss.Repository.Create.{create}
use cmdboss.Repository.Create.Atomic.{create_atomic}
use cmdboss.Repository.Update.{update}
use cmdboss.Repository.Update.Revisions.{update_atomic}
use cmdboss.Repository.Guard.{Guard}
use cmdboss.Repository.Delete.{delete}
use cmdboss.Repository.Delete.Atomic.{delete_atomic}
use cmdboss.Http.{
  no_content, delete_ci_route, Response, Gate, with_etag, parse_if_match, problem_of, answer, pass,
  guarded, ci_write, caller_of, create_ci, write_ci,
}

-- the requests behind the scope `ci:write` that write a CI: POST, PUT or PATCH, and
-- DELETE
pub data CiWrite : Type 0 where
  post : Dict Value → Option String → CiWrite
  put_or_patch : Bool → String → Dict Value → Option String → CiWrite
  remove : String → Option String → Bool → CiWrite

-- the status that the route's decorator gives it
unfoldable pub status_of : CiWrite → ℕ
status_of (CiWrite.post payload key) = 201
status_of (CiWrite.put_or_patch partial item_id payload if_match) = 200
status_of (CiWrite.remove item_id if_match detach) = 204

module _ (mongo : Driver) (cfg : Config mongo) (g : Option (Guard mongo)) (r : Readings)
    (rid : Option ℕ) (type_name : String) where
  -- the route of a request
  unfoldable pub route : CiWrite → Principal → Exec (Store mongo) Response
  route (CiWrite.post payload key) p = create_ci mongo cfg r rid type_name payload key p
  route (CiWrite.put_or_patch partial item_id payload if_match) p =
      write_ci mongo cfg partial r rid type_name item_id payload if_match p
  route (CiWrite.remove item_id if_match detach) p =
      delete_ci_route mongo cfg g r rid type_name item_id if_match detach p

  route_ok :
      (w : CiWrite) (p : Principal) (s s' : Store mongo) (x : Response)
      → route w p s ≡ (ok x, s')
      → x.status ≡ status_of w
  unfolding route status_of create_ci write_ci delete_ci_route with_etag
  route_ok (CiWrite.post payload key) p s s' x h =
      let (doc, t, h1, k1) =
        bind_ok (create mongo cfg r type_name payload (caller_of rid p) key) _ s s' x h in
      let sent : with_etag 201 doc ≡ x = cc in rw (← sent) refl
  route_ok (CiWrite.put_or_patch partial item_id payload if_match) p s s' x h =
      let (expected, s1, h1, k1) = bind_ok (lift (parse_if_match true if_match)) _ s s' x h in
      let (doc, t, h2, k2) =
        bind_ok (update mongo cfg r type_name item_id payload expected partial (caller_of rid p)) _
          s1 s' x k1 in
      let sent : with_etag 200 doc ≡ x = cc in rw (← sent) refl
  route_ok (CiWrite.remove item_id if_match detach) p s s' x h =
      let (expected, s1, h1, k1) = bind_ok (lift (parse_if_match false if_match)) _ s s' x h in
      let (_, t, h2, k2) =
        bind_ok (delete mongo cfg g r type_name item_id expected (caller_of rid p) detach) _ s1 s' x
          k1 in
      let sent : no_content ≡ x = cc in rw (← sent) refl

  route_err :
      (w : CiWrite) (p : Principal) (s s' : Store mongo) (e : Error)
      → cfg.txn_enabled ≡ true
      → route w p s ≡ (err e, s')
      → SameData mongo s s'
  unfolding route create_ci write_ci delete_ci_route
  route_err (CiWrite.post payload key) p s s' e on h =
      elim (bind-cases (create mongo cfg r type_name payload (caller_of rid p) key) _ s s' (err e)
        h) [
          | inl (y, h1, raised) ↦
              create_atomic mongo cfg r type_name payload (caller_of rid p) key s s' y on h1
          | inr (doc, t, h1, k1) ↦ cc
        ]
  route_err (CiWrite.put_or_patch partial item_id payload if_match) p s s' e on h =
      elim (bind-cases (lift (parse_if_match true if_match)) _ s s' (err e) h) [
        | inl (y, h1, raised) ↦ rw (sym (ap (λ a. a.1) h1)) (SameData-refl mongo s)
        | inr (expected, s1, h1, k1) ↦
            let start : s ≡ s1 = ap (λ a. a.1) h1 in
            elim (bind-cases
              (update mongo cfg r type_name item_id payload expected partial (caller_of rid p)) _ s1
              s' (err e) k1) [
                | inl (y, h2, raised) ↦
                    update_atomic mongo cfg r type_name item_id payload expected partial
                      (caller_of rid p) s s' y on (rw start h2)
                | inr (doc, t, h2, k2) ↦ cc
              ]
      ]
  route_err (CiWrite.remove item_id if_match detach) p s s' e on h =
      elim (bind-cases (lift (parse_if_match false if_match)) _ s s' (err e) h) [
        | inl (y, h1, raised) ↦ rw (sym (ap (λ a. a.1) h1)) (SameData-refl mongo s)
        | inr (expected, s1, h1, k1) ↦
            let start : s ≡ s1 = ap (λ a. a.1) h1 in
            elim (bind-cases
              (delete mongo cfg g r type_name item_id expected (caller_of rid p) detach) _ s1 s'
              (err e) k1) [
                | inl (y, h2, raised) ↦
                    delete_atomic mongo cfg g r type_name item_id expected (caller_of rid p) detach
                      s s' y on (rw start h2)
                | inr (u, t, h2, k2) ↦ cc
              ]
      ]

  -- With transactions, a POST, PUT, PATCH or DELETE of a CI is either answered by the envelope of an
  -- exception, and has changed no record, no entry of the log and no event; or it came from a
  -- caller whom the gate let through and who has the scope `ci:write`, and is answered by the
  -- status of its route.
  pub guarded-ci_write :
      (w : CiWrite) (gate : Gate) (limiter limiter' : Option RateLimiter) (s s' : Store mongo)
      (x : Response)
      → cfg.txn_enabled ≡ true
      → guarded ci_write gate limiter (route w) s ≡ (x, (s', limiter'))
      → ((e : Error) × (x ≡ problem_of e) × SameData mongo s s')
        ⊎ ((p : Principal) × (require ci_write gate.enabled gate.now gate.who limiter
              ≡ (ok p, limiter'))
            × (has_scope p "ci:write" ≡ true)
            × (x.status ≡ status_of w))
  unfolding guarded pass answer
  guarded-ci_write w gate limiter limiter' s s' x on h =
      elim (Run-cases (require ci_write gate.enabled gate.now gate.who limiter)) [
        | inr (e, l, refused) ↦
            let k = rw (refused) at h in
            inl (e, sym (ap (λ a. a.0) k), rw (sym (ap (λ a. a.1.0) k)) (SameData-refl mongo s))
        | inl (p, l, passed) ↦
            let k = rw passed at h in
            elim (Run-cases (route w p s)) [
              | inr (e, t, raised) ↦
                  let k' = rw raised at k in
                  inl (
                    e,
                    sym (ap (λ a. a.0) k'),
                    rw (sym (ap (λ a. a.1.0) k')) (route_err w p s t e on raised),
                  )
              | inl (y, t, returned) ↦
                  let k' = rw returned at k in
                  let same : y ≡ x = ap (λ a. a.0) k' in
                  let (got, held, provided) =
                    require_ok ci_write gate.enabled gate.now gate.who limiter p "ci:write"
                      (ap (λ a. a.0) passed) (Memᴰ.head refl) in
                  inr (
                    p,
                    rw (sym (ap (λ a. a.1.1) k')) passed,
                    held,
                    rw (sym same) (route_ok w p s t y returned),
                  )
            ]
      ]

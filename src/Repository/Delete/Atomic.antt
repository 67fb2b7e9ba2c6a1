-- ===== src/Repository/Delete/Atomic.antt =====
-- A `delete` that raises has no effects, whatever the guard does.
use cmdboss.Prelude.{◌≡◌, true, Bool, String, Option, inl, inr}
use cmdboss.Errors.{Error}
use cmdboss.Errors.Result.{ok, err}
use cmdboss.Errors.Result.Runs.{bind-cases, transaction_err}
use cmdboss.Value.{Number}
use cmdboss.Driver.{Driver}
use cmdboss.Store.{Store, Config, Readings, Caller}
use cmdboss.Store.Frame.{SameData}
use cmdboss.Repository.{type_doc, parse_object_id}
use cmdboss.Repository.Guard.{Guard}
use cmdboss.Repository.Delete.{delete, delete_body}
use cmdboss.Repository.Prepared.{type_doc-SameData, parse_object_id-cases}

module _ (mongo : Driver) (cfg : Config mongo) where
  pub delete_atomic :
      (g : Option (Guard mongo)) (r : Readings) (type_name item_id : String)
      (expected : Option Number) (caller : Caller) (detach : Bool) (s s' : Store mongo) (x : Error)
      → cfg.txn_enabled ≡ true
      → delete mongo cfg g r type_name item_id expected caller detach s ≡ (err x, s')
      → SameData mongo s s'
  unfolding delete
  delete_atomic g r type_name item_id expected caller detach s s' x on h =
      elim (bind-cases (type_doc mongo cfg r type_name) _ s s' (err x) h) [
        | inl (e, h1, raised) ↦ type_doc-SameData mongo cfg r type_name s s' (err e) h1
        | inr (t, s1, h1, k1) ↦
            let same = type_doc-SameData mongo cfg r type_name s s1 (ok t) h1 in
            elim (bind-cases (parse_object_id mongo cfg item_id) _ s1 s' (err x) k1) [
              | inl (e, h2, raised) ↦
                  rw (parse_object_id-cases mongo cfg item_id s1 s' (err e) h2) same
              | inr (oid, s2, h2, k2) ↦
                  let kept = parse_object_id-cases mongo cfg item_id s1 s2 (ok oid) h2 in
                  let undone =
                    transaction_err cfg.txn_enabled
                      (delete_body mongo cfg g r type_name item_id oid expected caller detach) s2 s'
                      x on k2 in
                  rw (undone, kept) same
            ]
      ]

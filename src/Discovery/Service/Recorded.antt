-- ===== src/Discovery/Service/Recorded.antt =====
-- The record that a run of discovery leaves.
use cmdboss.Prelude.{◌≡◌, refl, sym, ap, false, some, Dict, any, ==_iff, arith, String, inl, inr}
use cmdboss.Errors.Result.{Result, ok, err}
use cmdboss.Driver.{Driver}
use cmdboss.Driver.Laws.{find_one-insert, find_one-update}
use cmdboss.Discovery.{Provider, provider_named, Repositories}
use cmdboss.Discovery.Reconciler.{Report}
use cmdboss.Discovery.Service.{
  RunDoc, run_id_is, same_run, Request, RunReadings, Outcome, config_of, run_of, started,
  failed_run, completed_run, discover, finish, run_provider, run, get_run,
}

-- what becomes of the record of a run under way
abbrev pub recorded : RunReadings → Result Outcome → RunDoc → RunDoc
recorded r (ok out) d = completed_run r out.report d
recorded r (err e) d = failed_run r d

module _ (mongo : Driver) {S : Type 0} (repos : Repositories S) (default : String) where
  finish-get_run :
      (r : RunReadings) (q : Request) (d : RunDoc) (c c' : mongo.Coll RunDoc) (s' : S)
      (x : Result Report × S) (y : Result Outcome)
      → mongo.find_one (run_id_is r.run_id) c ≡ some d
      → d.id ≡ r.run_id
      → finish mongo repos default r q (run_of default r q) c x ≡ (y, (c', s'))
      → get_run mongo r.run_id c' ≡ ok (recorded r y d)
  unfolding finish get_run
  finish-get_run r q d c c' s' (ok report, t) y found own h =
      let e1 = ap (λ z. z.0) h in
      let e2 = ap (λ z. z.1.0) h in
      let hit = (==_iff d.id r.run_id).1 own in
      rw
        (
          sym e1,
          sym e2,
          get_run,
          find_one-update mongo (run_id_is r.run_id) (completed_run r report) d c found hit,
        )
        refl
  finish-get_run r q d c c' s' (err e, t) y found own h =
      let e1 = ap (λ z. z.0) h in
      let e2 = ap (λ z. z.1.0) h in
      let hit = (==_iff d.id r.run_id).1 own in
      rw
        (
          sym e1,
          sym e2,
          get_run,
          find_one-update mongo (run_id_is r.run_id) (failed_run r) d c found hit,
        )
        refl

  -- However a run of a registered provider ends, under an id that no record has, its record is there:
  -- completed with the report that is returned, or failed where the provider or the reconciler raised
  -- the exception that is passed on.
  pub run-recorded :
      (r : RunReadings) (q : Request) (providers : Dict Provider) (p : Provider)
      (c c' : mongo.Coll RunDoc) (s s' : S) (y : Result Outcome)
      → provider_named q.provider_name providers ≡ some p
      → any (same_run (started r q (run_of default r q))) (mongo.docs c) ≡ false
      → run mongo repos default r q providers (c, s) ≡ (y, (c', s'))
      → get_run mongo r.run_id c' ≡ ok (recorded r y (started r q (run_of default r q)))
  unfolding run run_provider started
  run-recorded r q providers p c c' s s' y known free h =
      let doc = started r q (run_of default r q) in
      elim (mongo.insert_lem same_run doc c) [
        | inl (clash, refused) ↦ cc
        | inr (c1, _, accepted, _) ↦
            let found =
              find_one-insert mongo same_run (run_id_is r.run_id) doc c c1 accepted
                (λ a q'. ground (arith, ==_iff r.run_id a.id, ==_iff a.id r.run_id))
                ((==_iff _ _).1 refl) in
            finish-get_run r q doc c1 c' s'
              (discover mongo repos default p (config_of q.config) (run_of default r q) s) y found
              refl (rw (known, run, accepted, run_provider) at h)
      ]

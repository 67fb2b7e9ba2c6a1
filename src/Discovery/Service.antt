-- ===== src/Discovery/Service.antt =====
-- DiscoveryService of cmdboss/discovery/service.py: a run of a provider and its record.
pub mod Recorded
use cmdboss.Prelude.{
  ℕ, String, Bool, true, Option, none, some, List, [], ◌∷◌, Dict, str_eq, ◌==◌, leb, min, max,
  if◌then◌else◌,
}
use cmdboss.Value.{Value}
use cmdboss.Errors.{Error, error_code}
use cmdboss.Errors.Result.{Result, ok, err, Exec}
use cmdboss.Driver.{Driver}
use cmdboss.Discovery.{DiscoveryResult, DiscoveryRun, Provider, provider_named, Repositories}
use cmdboss.Discovery.Reconciler.{Report, reconcile}

pub data RunStatus : Type 0 where
  running completed failed : RunStatus

-- a document of `_discovery_runs`; the error text is left out
pub record RunDoc : Type 0 where
  pub id : ℕ
  pub provider : String
  pub source : String
  pub on_missing : String
  pub status : RunStatus
  pub started_at : ℕ
  pub finished_at : Option ℕ
  pub actor : String
  pub report : Option Report

abbrev pub run_id_is : ℕ → RunDoc → Bool
run_id_is id d = d.id == id

abbrev pub same_run : RunDoc → RunDoc → Bool
same_run a b = a.id == b.id

-- what a call of `run` is given
pub record Request : Type 0 where
  pub provider_name : String
  pub config : Option (Dict Value)
  pub source : Option String
  pub on_missing : Option String
  pub actor : String

-- the fresh id of a run and the clock at its start and end
pub record RunReadings : Type 0 where
  pub run_id : ℕ
  pub started_at : ℕ
  pub finished_at : ℕ

-- the result of `run`
pub record Outcome : Type 0 where
  pub run_id : ℕ
  pub provider : String
  pub source : String
  pub report : Report

-- `source or provider_name`
unfoldable pub or_else : Option String → String → String
or_else none d = d
or_else (some s) d = if str_eq s "" then d else s

abbrev pub config_of : Option (Dict Value) → Dict Value
config_of none = []
config_of (some c) = c

-- `discovery_default_on_missing` of the settings
unfoldable pub run_of : String → RunReadings → Request → DiscoveryRun
unfolding or_else
run_of default r q = record {
  source = or_else q.source q.provider_name;
  run_id = r.run_id;
  on_missing = or_else q.on_missing default;
  actor = q.actor;
}

unfoldable pub started : RunReadings → Request → DiscoveryRun → RunDoc
started r q run = record {
  id = r.run_id;
  provider = q.provider_name;
  source = run.source;
  on_missing = run.on_missing;
  status = RunStatus.running;
  started_at = r.started_at;
  finished_at = none;
  actor = q.actor;
  report = none;
}

-- the `$set` of a run that failed, and of one that completed
unfoldable pub failed_run : RunReadings → RunDoc → RunDoc
failed_run r d = record d { status = RunStatus.failed; finished_at = some r.finished_at }

unfoldable pub completed_run : RunReadings → Report → RunDoc → RunDoc
completed_run r report d = record d {
  status = RunStatus.completed;
  finished_at = some r.finished_at;
  report = some report;
}

module _ (mongo : Driver) {S : Type 0} (repos : Repositories S) (default : String) where
  -- `self._runs` beside the state of the repositories
  abbrev pub Runs : Type 0
  Runs = mongo.Coll RunDoc × S

  -- `provider.discover`, then `reconcile`
  unfoldable pub discover : Provider → Dict Value → DiscoveryRun → Exec S Report
  discover p config run s = elim (p.discover config) [
    | err e ↦ (err e, s)
    | ok result ↦ reconcile repos run result s
  ]

  -- `except Exception`, and the end of a run that completed
  unfoldable pub finish :
      RunReadings
      → Request
      → DiscoveryRun
      → mongo.Coll RunDoc
      → Result Report × S
      → Result Outcome × Runs
  unfolding failed_run completed_run
  finish r q run c (err e, s) = (err e, (mongo.update_one (run_id_is r.run_id) (failed_run r) c, s))
  finish r q run c (ok report, s) = (
    ok (record {
      run_id = r.run_id;
      provider = q.provider_name;
      source = run.source;
      report = report;
    }),
    (mongo.update_one (run_id_is r.run_id) (completed_run r report) c, s),
  )

  unfoldable pub run_provider : RunReadings → Request → DiscoveryRun → Provider → Exec Runs Outcome
  unfolding started
  run_provider r q run p (c, s) = elim (mongo.insert_one same_run (started r q run) c) [
    | none ↦ (err Error.duplicate_key, (c, s))
    | some c' ↦ finish r q run c' (discover p (config_of q.config) run s)
  ]

  -- `run`
  unfoldable pub run : RunReadings → Request → Dict Provider → Exec Runs Outcome
  run r q providers s = elim (provider_named q.provider_name providers) [
    | none ↦ (err Error.not_found, s)
    | some p ↦ run_provider r q (run_of default r q) p s
  ]

module _ (mongo : Driver) where
  -- `get_run`
  unfoldable pub get_run : ℕ → mongo.Coll RunDoc → Result RunDoc
  get_run id c = elim (mongo.find_one (run_id_is id) c) [
    | none ↦ err Error.not_found
    | some d ↦ ok d
  ]

  -- {"source": source} if source else {}
  unfoldable pub run_source_is : Option String → RunDoc → Bool
  run_source_is none d = true
  run_source_is (some s) d = if str_eq s "" then true else str_eq d.source s

  -- `list_runs`, newest first
  unfoldable pub list_runs : Option String → ℕ → mongo.Coll RunDoc → List RunDoc
  list_runs source limit c =
      mongo.find_sorted (λ a b. leb b.started_at a.started_at) 0 (max 1 (min limit 200))
        (run_source_is source) c

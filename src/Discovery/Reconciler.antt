-- ===== src/Discovery/Reconciler.antt =====
-- Reconciler of cmdboss/discovery/reconciler.py. Messages of errors are left out of the report.
pub mod Counts
pub mod Accounts
use cmdboss.Prelude.{
  ℕ, ◌+◌, String, Bool, true, false, ◌&&◌, not, Option, none, some, List, [], ◌∷◌, ◌++◌, any, Dict,
  lookup, insert, str_eq, if◌then◌else◌,
}
use cmdboss.Value.{Value}
use cmdboss.Errors.{Error, is_app_error, is_conflict, error_code}
use cmdboss.Errors.Result.{Result, ok, err, Exec, pure, ◌>>=◌}
use cmdboss.Repository.Discovery.{Applied, Origin}
use cmdboss.Relationships.Edges.{NewEdge}
use cmdboss.Relationships.Edges.Removal.{EdgeKey, same_edge_key}
use cmdboss.Discovery.{
  DiscoveredCi, NodeExternalRef, DiscoveredEdge, DiscoveryResult, DiscoveryRun, Repositories,
}

-- the entries of report["ci"]["errors"]: of a discovered item, and of a stale CI
pub data CiError : Type 0 where
  of_item of_stale : String → String → String → CiError

-- the entries of report["relationships"]["errors"]: of a discovered edge, and of a stale one
pub data EdgeError : Type 0 where
  of_edge of_stale_edge : String → String → EdgeError

pub record CiReport : Type 0 where
  pub created : ℕ
  pub updated : ℕ
  pub unchanged : ℕ
  pub deleted : ℕ
  pub marked_missing : ℕ
  pub errors : List CiError

pub record EdgeReport : Type 0 where
  pub created : ℕ
  pub unchanged : ℕ
  pub deleted : ℕ
  pub errors : List EdgeError

pub record Report : Type 0 where
  pub ci : CiReport
  pub relationships : EdgeReport

-- `_empty_report`
abbrev pub no_cis : CiReport
no_cis = record {
  created = 0;
  updated = 0;
  unchanged = 0;
  deleted = 0;
  marked_missing = 0;
  errors = [];
}

abbrev pub no_edges : EdgeReport
no_edges = record { created = 0; unchanged = 0; deleted = 0; errors = [] }

-- desired_by_type: the items of each type by their external ids, a later one in place of an earlier
abbrev pub items_of : Option (Dict DiscoveredCi) → Dict DiscoveredCi
items_of none = []
items_of (some d) = d

unfoldable pub group : List DiscoveredCi → Dict (Dict DiscoveredCi) → Dict (Dict DiscoveredCi)
group [] out = out
group (x ∷ xs) out =
    group xs (insert x.type (insert x.external_id x (items_of (lookup x.type out))) out)

-- extid_to_ciid, the newest entry first
abbrev pub Ids : Type 0
Ids = List ((String × String) × String)

unfoldable pub ci_id_of : NodeExternalRef → Ids → Option String
ci_id_of n [] = none
ci_id_of n (((type, ext), id) ∷ ids) =
    if str_eq type n.type && str_eq ext n.external_id then some id else ci_id_of n ids

-- report["ci"][action] += 1
unfoldable pub tally : Applied → CiReport → CiReport
tally Applied.created c = record c { created = c.created + 1 }
tally Applied.updated c = record c { updated = c.updated + 1 }
tally Applied.unchanged c = record c { unchanged = c.unchanged + 1 }

abbrev pub note_ci : CiError → CiReport → CiReport
note_ci e c = record c { errors = c.errors ++ e ∷ [] }

abbrev pub note_edge : EdgeError → EdgeReport → EdgeReport
note_edge e c = record c { errors = c.errors ++ e ∷ [] }

-- `attributes or {}`
abbrev pub attributes_of : Option (Dict Value) → Dict Value
attributes_of none = []
attributes_of (some a) = a

-- an id that is there and not empty
unfoldable pub resolved : Option String → Option String
resolved none = none
resolved (some id) = if str_eq id "" then none else some id

module _ {S : Type 0} where
  -- `except AppError as exc`: another exception leaves the run
  unfoldable pub item_outcome :
      String → String → CiReport → Ids → Result (String × Applied) × S → Result (CiReport × Ids) × S
  unfolding tally
  item_outcome type ext c ids (ok (id, action), s) =
      (ok (tally action c, ((type, ext), id) ∷ ids), s)
  item_outcome type ext c ids (err e, s) =
      if is_app_error e
      then (ok (note_ci (of_item type ext (error_code e)) c, ids), s)
      else (err e, s)

  unfoldable pub stale_outcome :
      CiReport → String → String → CiReport → Result (Unit {0}) × S → Result CiReport × S
  stale_outcome done type id c (ok _, s) = (ok done, s)
  stale_outcome done type id c (err e, s) =
      if is_app_error e then (ok (note_ci (of_stale type id (error_code e)) c), s) else (err e, s)

  -- `except ConflictError`, then `except AppError`
  unfoldable pub edge_outcome : String → EdgeReport → Result (Unit {0}) × S → Result EdgeReport × S
  edge_outcome rel_type c (ok _, s) = (ok (record c { created = c.created + 1 }), s)
  edge_outcome rel_type c (err e, s) =
      if is_conflict e && str_eq (error_code e) "duplicate_edge"
      then (ok (record c { unchanged = c.unchanged + 1 }), s)
      else if is_app_error e
      then (ok (note_edge (of_edge rel_type (error_code e)) c), s)
      else (err e, s)

  unfoldable pub stale_edge_outcome :
      String → EdgeReport → Result (Unit {0}) × S → Result EdgeReport × S
  stale_edge_outcome id c (ok _, s) = (ok (record c { deleted = c.deleted + 1 }), s)
  stale_edge_outcome id c (err e, s) =
      if is_app_error e then (ok (note_edge (of_stale_edge id (error_code e)) c), s) else (err e, s)

module _ {S : Type 0} (repos : Repositories S) (run : DiscoveryRun) where
  -- one desired item
  unfoldable pub apply_item :
      String → String → DiscoveredCi → CiReport → Ids → Exec S (CiReport × Ids)
  apply_item type ext x c ids s = item_outcome type ext c ids (
      repos.apply_discovery type x.fields
        (record { source = run.source; external_id = ext; run_id = run.run_id }) run.actor s)

  -- the loop over the desired items of one type
  unfoldable pub apply_items : String → Dict DiscoveredCi → CiReport → Ids → Exec S (CiReport × Ids)
  apply_items type [] c ids s = (ok (c, ids), s)
  apply_items type ((ext, x) ∷ xs) c ids s =
      (apply_item type ext x c ids >>= λ (c', ids'). apply_items type xs c' ids') s

  -- what becomes of one stale CI
  unfoldable pub retire : String → String → CiReport → Exec S CiReport
  retire type id c s =
      if str_eq run.on_missing "delete"
      then stale_outcome (record c { deleted = c.deleted + 1 }) type id c
          (repos.delete_ci type id run s)
      else stale_outcome (record c { marked_missing = c.marked_missing + 1 }) type id c
          (repos.mark_missing type id run s)

  -- the loop over `existing`
  unfoldable pub retire_stale :
      String → Dict DiscoveredCi → Dict String → CiReport → Exec S CiReport
  retire_stale type desired [] c s = (ok c, s)
  retire_stale type desired ((ext, id) ∷ xs) c s = elim (lookup ext desired) [
    | some _ ↦ retire_stale type desired xs c s
    | none ↦ (retire type id c >>= retire_stale type desired xs) s
  ]

  -- the loop over `desired_by_type`
  unfoldable pub reconcile_types :
      Dict (Dict DiscoveredCi) → CiReport → Ids → Exec S (CiReport × Ids)
  reconcile_types [] c ids s = (ok (c, ids), s)
  reconcile_types ((type, desired) ∷ types) c ids s =
      let existing = repos.iter_source type run.source s in
      (apply_items type desired c ids >>= λ (c', ids').
      retire_stale type desired existing c' >>= λ c''. reconcile_types types c'' ids')
        s

  -- one edge whose ends are known
  unfoldable pub put_edge : DiscoveredEdge → String → String → EdgeReport → Exec S EdgeReport
  put_edge e f t c s = edge_outcome e.rel_type c (
      repos.create_edge
        (record {
          rel_type = e.rel_type;
          from_type = e.from_ref.type;
          from_id = f;
          to_type = e.to_ref.type;
          to_id = t;
          attributes = attributes_of e.attributes;
          provenance = some (run.source, run.run_id);
        })
        run s)

  -- the loop over the relationships, which collects `desired_keys`
  unfoldable pub put_edges :
      Ids → List DiscoveredEdge → EdgeReport → List EdgeKey → Exec S (EdgeReport × List EdgeKey)
  unfolding resolved
  put_edges ids [] c keys s = (ok (c, keys), s)
  put_edges ids (e ∷ es) c keys s = elim (resolved (ci_id_of e.from_ref ids)) [
    | none ↦ put_edges ids es (note_edge (of_edge e.rel_type "unresolved_endpoint") c) keys s
    | some f ↦ elim (resolved (ci_id_of e.to_ref ids)) [
      | none ↦ put_edges ids es (note_edge (of_edge e.rel_type "unresolved_endpoint") c) keys s
      | some t ↦ (put_edge e f t c >>= λ c'. put_edges ids es c' ((e.rel_type, f, t) ∷ keys)) s
    ]
  ]

  unfoldable pub remove_stale_edge : String → EdgeReport → Exec S EdgeReport
  remove_stale_edge id c s = stale_edge_outcome id c (repos.delete_edge id run s)

  -- the loop over `existing_edges`
  unfoldable pub remove_stale_edges :
      List EdgeKey → List (EdgeKey × String) → EdgeReport → Exec S EdgeReport
  remove_stale_edges keys [] c s = (ok c, s)
  remove_stale_edges keys ((key, id) ∷ xs) c s = elim (any (same_edge_key key) keys) [
    | true ↦ remove_stale_edges keys xs c s
    | false ↦ (remove_stale_edge id c >>= remove_stale_edges keys xs) s
  ]

  -- `_reconcile_edges`
  unfoldable pub reconcile_edges : Ids → List DiscoveredEdge → Exec S EdgeReport
  reconcile_edges ids es = do
    (c, keys) ← put_edges ids es no_edges []
    (λ s. remove_stale_edges keys (repos.iter_source_edges run.source s) c s)

  -- `reconcile`
  unfoldable pub reconcile : DiscoveryResult → Exec S Report
  reconcile result = do
    (c, ids) ← reconcile_types (group result.items []) no_cis []
    edges ← reconcile_edges ids result.relationships
    pure (record { ci = c; relationships = edges })

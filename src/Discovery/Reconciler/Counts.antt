-- ===== src/Discovery/Reconciler/Counts.antt =====
-- The items and the relationships that a report speaks of, and how each outcome counts one.
use cmdboss.Prelude.{
  ℕ, suc, ◌+◌, ◌≡◌, String, List, [], ◌∷◌, ◌++◌, length, Dict, str_eq, ◌&&◌, arith, inl, inr,
  Bool-cases,
}
use cmdboss.Errors.{is_app_error, is_conflict, error_code}
use cmdboss.Errors.Result.{Result, ok, err}
use cmdboss.Repository.Discovery.{Applied}
use cmdboss.Discovery.{DiscoveredCi}
use cmdboss.Discovery.Reconciler.{
  CiError, of_item, of_stale, EdgeError, of_edge, of_stale_edge, CiReport, EdgeReport, Ids, tally,
  item_outcome, stale_outcome, edge_outcome, stale_edge_outcome,
}

abbrev pub item_errors : List CiError → ℕ
item_errors [] = 0
item_errors (of_item type ext code ∷ es) = suc (item_errors es)
item_errors (of_stale type id code ∷ es) = item_errors es

abbrev pub edge_errors : List EdgeError → ℕ
edge_errors [] = 0
edge_errors (of_edge rel_type code ∷ es) = suc (edge_errors es)
edge_errors (of_stale_edge id code ∷ es) = edge_errors es

-- the items and the relationships that a report speaks of
abbrev pub items_counted : CiReport → ℕ
items_counted c = c.created + c.updated + c.unchanged + item_errors c.errors

abbrev pub edges_counted : EdgeReport → ℕ
edges_counted c = c.created + c.unchanged + edge_errors c.errors

-- the desired items, of each type and external id one
abbrev pub desired_count : Dict (Dict DiscoveredCi) → ℕ
desired_count [] = 0
desired_count ((type, desired) ∷ types) = length desired + desired_count types

pub item_errors-append :
    (es fs : List CiError) → item_errors (es ++ fs) ≡ item_errors es + item_errors fs
item_errors-append [] fs = omega arith
item_errors-append (of_item type ext code ∷ es) fs = omega (arith, item_errors-append es fs)
item_errors-append (of_stale type id code ∷ es) fs = item_errors-append es fs

pub edge_errors-append :
    (es fs : List EdgeError) → edge_errors (es ++ fs) ≡ edge_errors es + edge_errors fs
edge_errors-append [] fs = omega arith
edge_errors-append (of_edge rel_type code ∷ es) fs = omega (arith, edge_errors-append es fs)
edge_errors-append (of_stale_edge id code ∷ es) fs = edge_errors-append es fs

tally-counted : (a : Applied) (c : CiReport) → items_counted (tally a c) ≡ items_counted c + 1
unfolding tally
tally-counted Applied.created c = omega arith
tally-counted Applied.updated c = omega arith
tally-counted Applied.unchanged c = omega arith

module _ {S : Type 0} where
  pub item_outcome-counted :
      (type ext : String) (c c' : CiReport) (ids ids' : Ids) (r : Result (String × Applied) × S)
      (s' : S)
      → item_outcome type ext c ids r ≡ (ok (c', ids'), s')
      → items_counted c' ≡ items_counted c + 1
  unfolding item_outcome
  item_outcome-counted type ext c c' ids ids' (ok (id, action), s) s' h =
      let e : tally action c ≡ c' = cc in rw (← e) (tally-counted action c)
  item_outcome-counted type ext c c' ids ids' (err x, s) s' h = elim (Bool-cases (is_app_error x)) [
    | inl e ↦
        let k = rw e at h in
        let sum = item_errors-append c.errors (of_item type ext (error_code x) ∷ []) in
        ground (arith, sum)
    | inr e ↦ cc (rw e at h)
  ]

  pub stale_outcome-counted :
      (done c c' : CiReport) (type id : String) (r : Result (Unit {0}) × S) (s' : S)
      → items_counted done ≡ items_counted c
      → stale_outcome done type id c r ≡ (ok c', s')
      → items_counted c' ≡ items_counted c
  unfolding stale_outcome
  stale_outcome-counted done c c' type id (ok u, s) s' same h =
      let e : done ≡ c' = cc in rw (← e) same
  stale_outcome-counted done c c' type id (err x, s) s' same h =
      elim (Bool-cases (is_app_error x)) [
        | inl e ↦
            let k = rw e at h in
            let sum = item_errors-append c.errors (of_stale type id (error_code x) ∷ []) in
            ground (arith, sum)
        | inr e ↦ cc (rw e at h)
      ]

  pub edge_outcome-counted :
      (rel_type : String) (c c' : EdgeReport) (r : Result (Unit {0}) × S) (s' : S)
      → edge_outcome rel_type c r ≡ (ok c', s')
      → edges_counted c' ≡ edges_counted c + 1
  unfolding edge_outcome
  edge_outcome-counted rel_type c c' (ok u, s) s' h = ground arith
  edge_outcome-counted rel_type c c' (err x, s) s' h =
      elim (Bool-cases (is_conflict x && str_eq (error_code x) "duplicate_edge")) [
        | inl e ↦ let k = rw e at h in ground arith
        | inr e ↦ elim (Bool-cases (is_app_error x)) [
          | inl e' ↦
              let k = rw (e, e') at h in
              let sum = edge_errors-append c.errors (of_edge rel_type (error_code x) ∷ []) in
              ground (arith, sum)
          | inr e' ↦ cc (rw (e, e') at h)
        ]
      ]

  pub stale_edge_outcome-counted :
      (id : String) (c c' : EdgeReport) (r : Result (Unit {0}) × S) (s' : S)
      → stale_edge_outcome id c r ≡ (ok c', s')
      → edges_counted c' ≡ edges_counted c
  unfolding stale_edge_outcome
  stale_edge_outcome-counted id c c' (ok u, s) s' h = ground arith
  stale_edge_outcome-counted id c c' (err x, s) s' h = elim (Bool-cases (is_app_error x)) [
    | inl e ↦
        let k = rw e at h in
        let sum = edge_errors-append c.errors (of_stale_edge id (error_code x) ∷ []) in
        ground (arith, sum)
    | inr e ↦ cc (rw e at h)
  ]

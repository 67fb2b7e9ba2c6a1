-- ===== src/Discovery/Reconciler/Accounts.antt =====
-- The report of a run accounts for what the provider returned.
use cmdboss.Prelude.{
  ◌+◌, ◌≡◌, ◌∙◌, any, String, List, [], ◌∷◌, length, Dict, lookup, str_eq, arith, inl, inr,
  Bool-cases, Option-cases,
}
use cmdboss.Errors.Result.{ok}
use cmdboss.Errors.Result.Runs.{bind_ok}
use cmdboss.Relationships.Edges.Removal.{EdgeKey, same_edge_key}
use cmdboss.Discovery.{DiscoveredCi, DiscoveredEdge, DiscoveryResult, DiscoveryRun, Repositories}
use cmdboss.Discovery.Reconciler.Counts.{
  items_counted, edges_counted, desired_count, edge_errors-append, item_outcome-counted,
  stale_outcome-counted, edge_outcome-counted, stale_edge_outcome-counted,
}
use cmdboss.Discovery.Reconciler.{
  of_edge, CiReport, EdgeReport, Report, no_cis, no_edges, group, Ids, ci_id_of, resolved,
  apply_item, apply_items, remove_stale_edge, retire, retire_stale, reconcile_types, put_edge,
  put_edges, remove_stale_edges, reconcile_edges, reconcile,
}

module _ {S : Type 0} (repos : Repositories S) (run : DiscoveryRun) where
  apply_items-counted :
      (type : String) (xs : Dict DiscoveredCi) (c c' : CiReport) (ids ids' : Ids) (s s' : S)
      → apply_items repos run type xs c ids s ≡ (ok (c', ids'), s')
      → items_counted c' ≡ items_counted c + length xs
  unfolding apply_items apply_item
  apply_items-counted type [] c c' ids ids' s s' h = ground arith
  apply_items-counted type ((ext, x) ∷ xs) c c' ids ids' s s' h =
      let ((c1, ids1), s1, h1, k1) =
        bind_ok (apply_item repos run type ext x c ids) _ s s' (c', ids') h in
      omega (
        arith,
        item_outcome-counted type ext c c1 ids ids1 _ s1 h1,
        apply_items-counted type xs c1 c' ids1 ids' s1 s' k1,
      )

  retire-counted :
      (type id : String) (c c' : CiReport) (s s' : S)
      → retire repos run type id c s ≡ (ok c', s')
      → items_counted c' ≡ items_counted c
  unfolding retire
  retire-counted type id c c' s s' h = elim (Bool-cases (str_eq run.on_missing "delete")) [
    | inl e ↦ stale_outcome-counted _ c c' type id _ s' (omega arith) (rw e at h)
    | inr e ↦ stale_outcome-counted _ c c' type id _ s' (omega arith) (rw e at h)
  ]

  retire_stale-counted :
      (type : String) (desired : Dict DiscoveredCi) (xs : Dict String) (c c' : CiReport) (s s' : S)
      → retire_stale repos run type desired xs c s ≡ (ok c', s')
      → items_counted c' ≡ items_counted c
  unfolding retire_stale
  retire_stale-counted type desired [] c c' s s' h = ground arith
  retire_stale-counted type desired ((ext, id) ∷ xs) c c' s s' h =
      elim (Option-cases (lookup ext desired)) [
        | inl e ↦
            let (c1, s1, h1, k1) =
              bind_ok (retire repos run type id c) _ s s' c' (rw (e, retire_stale) at h) in
            retire_stale-counted type desired xs c1 c' s1 s' k1
            ∙ retire-counted type id c c1 s s1 h1
        | inr (x, e) ↦ retire_stale-counted type desired xs c c' s s' (rw (e, retire_stale) at h)
      ]

  reconcile_types-counted :
      (types : Dict (Dict DiscoveredCi)) (c c' : CiReport) (ids ids' : Ids) (s s' : S)
      → reconcile_types repos run types c ids s ≡ (ok (c', ids'), s')
      → items_counted c' ≡ items_counted c + desired_count types
  unfolding reconcile_types
  reconcile_types-counted [] c c' ids ids' s s' h = ground arith
  reconcile_types-counted ((type, desired) ∷ types) c c' ids ids' s s' h =
      let ((c1, ids1), s1, h1, k1) =
        bind_ok (apply_items repos run type desired c ids) _ s s' (c', ids') h in
      let (c2, s2, h2, k2) =
        bind_ok (retire_stale repos run type desired (repos.iter_source type run.source s) c1) _ s1
          s' (c', ids') k1 in
      omega (
        arith,
        apply_items-counted type desired c c1 ids ids1 s s1 h1,
        retire_stale-counted type desired _ c1 c2 s1 s2 h2,
        reconcile_types-counted types c2 c' ids1 ids' s2 s' k2,
      )

  put_edges-counted :
      (ids : Ids) (es : List DiscoveredEdge) (c c' : EdgeReport) (keys keys' : List EdgeKey)
      (s s' : S)
      → put_edges repos run ids es c keys s ≡ (ok (c', keys'), s')
      → edges_counted c' ≡ edges_counted c + length es
  unfolding put_edges put_edge
  put_edges-counted ids [] c c' keys keys' s s' h = ground arith
  put_edges-counted ids (e ∷ es) c c' keys keys' s s' h =
      let sum = edge_errors-append c.errors (of_edge e.rel_type "unresolved_endpoint" ∷ []) in
      elim (Option-cases (resolved (ci_id_of e.from_ref ids))) [
        | inl lost ↦
            omega (
              arith,
              sum,
              put_edges-counted ids es _ c' keys keys' s s' (rw (lost, put_edges) at h),
            )
        | inr (f, found) ↦ elim (Option-cases (resolved (ci_id_of e.to_ref ids))) [
          | inl lost ↦ omega (
            arith,
            sum,
            put_edges-counted ids es _ c' keys keys' s s' (rw (found, lost, put_edges) at h),
          )
          | inr (t, found') ↦
              let (c1, s1, h1, k1) =
                bind_ok (put_edge repos run e f t c) _ s s' (c', keys')
                  (rw (found, found', put_edges) at h) in
              omega (
                arith,
                edge_outcome-counted e.rel_type c c1 _ s1 h1,
                put_edges-counted ids es c1 c' _ keys' s1 s' k1,
              )
        ]
      ]

  remove_stale_edges-counted :
      (keys : List EdgeKey) (xs : List (EdgeKey × String)) (c c' : EdgeReport) (s s' : S)
      → remove_stale_edges repos run keys xs c s ≡ (ok c', s')
      → edges_counted c' ≡ edges_counted c
  unfolding remove_stale_edges remove_stale_edge
  remove_stale_edges-counted keys [] c c' s s' h = ground arith
  remove_stale_edges-counted keys ((key, id) ∷ xs) c c' s s' h =
      elim (Bool-cases (any (same_edge_key key) keys)) [
        | inl e ↦ remove_stale_edges-counted keys xs c c' s s' (rw (e, remove_stale_edges) at h)
        | inr e ↦
            let (c1, s1, h1, k1) =
              bind_ok (remove_stale_edge repos run id c) _ s s' c'
                (rw (e, remove_stale_edges) at h) in
            remove_stale_edges-counted keys xs c1 c' s1 s' k1
            ∙ stale_edge_outcome-counted id c c1 _ s1 h1
      ]

  -- The report of a run that returns counts every discovered item, of each type and external id
  -- one, exactly once as created, updated, unchanged or in error, and every relationship of the
  -- result exactly once as created, unchanged or in error, whatever the repositories do.
  pub reconcile_accounts :
      (result : DiscoveryResult) (report : Report) (s s' : S)
      → reconcile repos run result s ≡ (ok report, s')
      → (items_counted report.ci ≡ desired_count (group result.items []))
        × (edges_counted report.relationships ≡ length result.relationships)
  unfolding reconcile reconcile_edges
  reconcile_accounts result report s s' h =
      let ((c, ids), s1, h1, k1) =
        bind_ok (reconcile_types repos run (group result.items []) no_cis []) _ s s' report h in
      let (edges, s2, h2, k2) =
        bind_ok (reconcile_edges repos run ids result.relationships) _ s1 s' report k1 in
      let ((e, keys), s3, h3, k3) =
        bind_ok (put_edges repos run ids result.relationships no_edges []) _ s1 s2 edges h2 in
      let left : record { ci = c; relationships = edges } ≡ report = cc in
      rw (← left) (
        omega (arith, reconcile_types-counted (group result.items []) no_cis c [] ids s s1 h1),
        omega (
          arith,
          remove_stale_edges-counted keys (repos.iter_source_edges run.source s3) e edges s3 s2 k3,
          put_edges-counted ids result.relationships no_edges e [] keys s1 s3 h3,
        ),
      )

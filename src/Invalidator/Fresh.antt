-- ===== src/Invalidator/Fresh.antt =====
-- After a poll the worker reads again what had changed, and a second poll finds nothing.
use cmdboss.Prelude.{
  ℕ, ◌≤◌, ◌<◌, ◌≡◌, ◌≢◌, refl, ◌∙◌, ap, String, none, List, [], ◌∷◌, Memᴰ, Memᴰ-cons, lookup,
  lookup-remove, eq_iff, ltb, arith, inl, inr, if◌then◌else◌,
}
use mathlib.Core.List.Memᴰ
use cmdboss.Text.{lower}
use cmdboss.Driver.{Driver}
use cmdboss.Driver.Laws.{mem-find}
use cmdboss.Registry.{TypeDoc, Worker, active_named, invalidate, get_type, cache_get, fresh}
use cmdboss.Invalidator.{changed_after, Invalidator, drop_type, drop_all, newest_change, poll_once}

module _ (mongo : Driver) where
  drop_type-types : (name : String) (w : Worker mongo) → (drop_type mongo name w).types ≡ w.types
  unfolding drop_type invalidate
  drop_type-types name w = ground arith

  drop_all-types : (ds : List TypeDoc) (w : Worker mongo) → (drop_all mongo ds w).types ≡ w.types
  unfolding drop_all
  drop_all-types [] w = refl
  drop_all-types (d ∷ ds) w =
      drop_all-types ds (drop_type mongo d.name w) ∙ drop_type-types d.name w

  -- a name that is not cached stays so
  drop_type-lookup :
      (name k : String) (w : Worker mongo)
      → lookup k w.type_cache ≡ none
      → lookup k (drop_type mongo name w).type_cache ≡ none
  unfolding drop_type invalidate
  drop_type-lookup name k w h = ground (arith, lookup-remove name k w.type_cache)

  drop_type_self :
      (name : String) (w : Worker mongo)
      → name ≢ ""
      → lookup name (drop_type mongo name w).type_cache ≡ none
  unfolding drop_type invalidate
  drop_type_self name w h =
      ground (arith, eq_iff name "", eq_iff name name, lookup-remove name name w.type_cache)

  drop_all-lookup :
      (ds : List TypeDoc) (k : String) (w : Worker mongo)
      → lookup k w.type_cache ≡ none
      → lookup k (drop_all mongo ds w).type_cache ≡ none
  unfolding drop_all
  drop_all-lookup [] k w h = h
  drop_all-lookup (d ∷ ds) k w h =
      drop_all-lookup ds k (drop_type mongo d.name w) (drop_type-lookup d.name k w h)

  drop_all-mem :
      (ds : List TypeDoc) (d : TypeDoc) (w : Worker mongo)
      → d.name ≢ ""
      → Memᴰ d ds
      → lookup d.name (drop_all mongo ds w).type_cache ≡ none
  unfolding drop_all
  drop_all-mem [] d w named m = absurd (Memᴰ.not-nil m)
  drop_all-mem (x ∷ ds) d w named m = elim ((Memᴰ-cons d x ds).0 m) [
    | inl e ↦ rw (ap (λ (t : TypeDoc). t.name) e) (
        drop_all-lookup ds x.name (drop_type mongo x.name w)
          (drop_type_self x.name w (rw (ap (λ (t : TypeDoc). t.name) e) at named)))
    | inr m' ↦ drop_all-mem ds d (drop_type mongo x.name w) named m'
  ]

  get_type-uncached :
      (now at : ℕ) (url : String) (w : Worker mongo)
      → lookup (lower url) w.type_cache ≡ none
      → (get_type mongo now at url w).0 ≡ mongo.find_one (active_named (lower url)) w.types
  unfolding get_type
  get_type-uncached now at url w h = rw (h, get_type, cache_get, fresh) refl

  newest_change-le : (ds : List TypeDoc) (t : ℕ) → t ≤ newest_change mongo ds t
  unfolding newest_change
  newest_change-le [] t = omega arith
  newest_change-le (d ∷ ds) t =
      ground (arith, newest_change-le ds (if ltb t d.updated_at then d.updated_at else t))

  newest_change-mem :
      (ds : List TypeDoc) (d : TypeDoc) (t : ℕ)
      → Memᴰ d ds
      → d.updated_at ≤ newest_change mongo ds t
  unfolding newest_change
  newest_change-mem [] d t m = absurd (Memᴰ.not-nil m)
  newest_change-mem (x ∷ ds) d t m =
      let t' : ℕ = if ltb t x.updated_at then x.updated_at else t in
      elim ((Memᴰ-cons d x ds).0 m) [
        | inl e ↦ rw e (ground (arith, newest_change-le ds t'))
        | inr m' ↦ newest_change-mem ds d t' m'
      ]

  -- After a poll, the next read of the name of a type that had changed since the watermark, in any
  -- spelling of its case, returns what the database holds under it, whatever the caches held; and the
  -- new watermark is not before its change.
  pub poll_once-get_type :
      (i : Invalidator mongo) (d : TypeDoc) (now at : ℕ) (url : String)
      → Memᴰ d (mongo.docs i.worker.types)
      → i.watermark < d.updated_at
      → lower url ≡ d.name
      → d.name ≢ ""
      → ((get_type mongo now at url (poll_once mongo i).1.worker).0
          ≡ mongo.find_one (active_named d.name) i.worker.types)
        × (d.updated_at ≤ (poll_once mongo i).1.watermark)
  unfolding poll_once changed_after
  poll_once-get_type i d now at url m later spelled named =
      let docs = mongo.find (changed_after i.watermark) i.worker.types in
      let found : Memᴰ d docs =
        (mem-find mongo (changed_after i.watermark) i.worker.types d).1 (m, ground arith) in
      (
        get_type-uncached now at url (drop_all mongo docs i.worker)
              (rw spelled (drop_all-mem docs d i.worker named found))
            ∙ rw (spelled, drop_all-types docs i.worker) refl,
        ground (arith, newest_change-mem docs d i.watermark found),
      )

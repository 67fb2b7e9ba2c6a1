-- ===== src/Invalidator.antt =====
-- cmdboss/invalidator.py: RegistryCacheInvalidator, which drops from a worker's caches the types that
-- another worker has changed. Every timestamp is aware, as with a real server, so `_aware` is the
-- identity; the loop of the task and its error handling are left out.
pub mod Fresh
use cmdboss.Prelude.{ℕ, suc, ◌+◌, String, Bool, List, [], ◌∷◌, str_eq, ltb, max, if◌then◌else◌}
use cmdboss.Driver.{Driver}
use cmdboss.Registry
use cmdboss.Registry.{TypeDoc, Worker, invalidate}

-- {"updated_at": {"$gt": self._watermark}}
unfoldable pub changed_after : ℕ → TypeDoc → Bool
changed_after watermark d = ltb watermark d.updated_at

module _ (mongo : Driver) where
  -- the invalidator with the worker whose registry it is given
  pub record Invalidator : Type 0 where
    pub worker : Worker mongo
    pub watermark : ℕ

  -- `if name: self._registry.invalidate(name)`
  unfoldable pub drop_type : String → Worker mongo → Worker mongo
  drop_type name w = if str_eq name "" then w else invalidate mongo name w

  unfoldable pub drop_all : List TypeDoc → Worker mongo → Worker mongo
  unfolding drop_type
  drop_all [] w = w
  drop_all (d ∷ ds) w = drop_all ds (drop_type d.name w)

  -- `invalidated`
  unfoldable pub dropped_count : List TypeDoc → ℕ
  dropped_count [] = 0
  dropped_count (d ∷ ds) =
      let rest = dropped_count ds in if str_eq d.name "" then rest else suc rest

  -- `newest`
  unfoldable pub newest_change : List TypeDoc → ℕ → ℕ
  newest_change [] t = t
  newest_change (d ∷ ds) t = newest_change ds (if ltb t d.updated_at then d.updated_at else t)

  -- `poll_once`: the watermark moves only forward
  unfoldable pub poll_once : Invalidator → ℕ × Invalidator
  poll_once i =
      let docs = mongo.find (changed_after i.watermark) i.worker.types in
      let top = newest_change docs i.watermark in
      (
        dropped_count docs,
        record {
          worker = drop_all docs i.worker;
          watermark = if ltb i.watermark top then top else i.watermark;
        },
      )

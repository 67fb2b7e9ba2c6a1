-- ===== src/Registry/Writes.antt =====
-- What a write to the registry does to the reads that follow: it is seen at once by its own worker.
use cmdboss.Prelude.{
  ℕ, ◌+◌, ◌≡◌, refl, String, true, false, none, some, lookup, lookup-remove, eq_iff, arith, inl,
  inr, ◌∙◌, ap, subst, Option-cases, Distinct,
}
use cmdboss.Text.{lower}
use cmdboss.Errors.Result.{ok}
use cmdboss.Schema.{CiTypeDefinition}
use cmdboss.Driver.{Driver}
use cmdboss.Driver.Laws.{find_one-insert, find_one-update, find_one-eq-some, find_one-update_gone}
use cmdboss.Registry.{
  TypeDoc, Worker, same_type, active_named, new_type, revised, deactivated, get_type,
  get_type_strict, invalidate, inserted, create_type, replaced, update_type, deactivate_type,
}

module _ (mongo : Driver) where
  -- a name that is in no cache is read from the collection
  get_type_uncached :
      (now later : ℕ) (name : String) (w : Worker mongo)
      → lookup (lower name) w.type_cache ≡ none
      → (get_type mongo now later name w).0 ≡ mongo.find_one (active_named (lower name)) w.types
  unfolding get_type
  get_type_uncached now later name w h = ground (arith, h)

  found_new :
      (doc : TypeDoc) (types types' : mongo.Coll TypeDoc)
      → doc.active ≡ true
      → mongo.insert_one same_type doc types ≡ some types'
      → mongo.find_one (active_named doc.name) types' ≡ some doc
  found_new doc types types' active e =
      find_one-insert mongo same_type (active_named doc.name) doc types types' e
        (λ a hit. ground arith) (ground (arith, eq_iff doc.name doc.name))

  -- after an invalidation the next read goes to the collection
  get_type-invalidate :
      (now later : ℕ) (name : String) (w : Worker mongo)
      → lower name ≡ name
      → (get_type mongo now later name (invalidate mongo name w)).0
        ≡ mongo.find_one (active_named name) w.types
  unfolding invalidate
  get_type-invalidate now later name w low =
      subst
        (λ key.
          (get_type mongo now later name (invalidate mongo name w)).0
          ≡ mongo.find_one (active_named key) w.types)
        low
        (get_type_uncached now later name (invalidate mongo name w)
          (rw low (ground (arith, lookup-remove name name w.type_cache, eq_iff name name))))

  -- A type that was created under a name in lower case, its indexes included, is what the next
  -- read of its name returns, whatever the caches held.
  pub get_type-create :
      (now later id at : ℕ) (d : CiTypeDefinition) (actor : String) (w : Worker mongo)
      (doc : TypeDoc)
      → lower d.name ≡ d.name
      → (create_type mongo id at true d actor w).0 ≡ ok doc
      → (get_type mongo now later d.name (create_type mongo id at true d actor w).1).0 ≡ some doc
  unfolding create_type
  get_type-create now later id at d actor w doc low h =
      elim (Option-cases (mongo.insert_one same_type (new_type id at d actor) w.types)) [
        | inl e ↦ cc (rw (e, inserted) at h)
        | inr (types, e) ↦
            let same : new_type id at d actor ≡ doc = cc (rw (e, inserted) at h) in
            rw (e, inserted)
              (get_type-invalidate now later d.name (record w { types = types }) low
                ∙ found_new (new_type id at d actor) w.types types refl e
                ∙ ap some same)
      ]

  -- An update of an active type, its indexes included, under its name in lower case writes and
  -- returns the next version, and the next read of the name returns the new schema, whatever the
  -- caches held.
  pub get_type-update :
      (now later at : ℕ) (d : CiTypeDefinition) (actor : String) (w : Worker mongo) (t : TypeDoc)
      → lower d.name ≡ d.name
      → mongo.find_one (active_named d.name) w.types ≡ some t
      → ((update_type mongo at true d.name d actor w).0 ≡ ok (revised (t.version + 1) at d actor t))
        × ((get_type mongo now later d.name (update_type mongo at true d.name d actor w).1).0
            ≡ some (revised (t.version + 1) at d actor t))
  unfolding update_type get_type_strict
  get_type-update now later at d actor w t low h =
      let f = revised (t.version + 1) at d actor in
      let found =
        find_one-update mongo (active_named d.name) f t w.types h
          (find_one-eq-some mongo (active_named d.name) w.types t h).1 in
      let w' = record w { types = mongo.update_one (active_named d.name) f w.types } in
      rw (low, (eq_iff d.name d.name).1 refl, low, h, replaced, low, low, found)
        (refl, get_type-invalidate now later d.name w' low ∙ found)

  -- no two types share a name or an id
  abbrev pub AreDistinct : Worker mongo → Type 0
  AreDistinct w = Distinct same_type (mongo.docs w.types)

  one_active :
      (name : String) (a b : TypeDoc)
      → active_named name a ≡ true
      → active_named name b ≡ true
      → same_type a b ≡ true
  one_active name a b h k =
      ground (arith, eq_iff a.name name, eq_iff b.name name, eq_iff b.name a.name)

  inactive_is_gone :
      (name : String) (at : ℕ) (actor : String) (a : TypeDoc)
      → active_named name (deactivated at actor a) ≡ false
  inactive_is_gone name at actor a = ground arith

  -- Where names and ids are unique, the deactivation of an active type under its name in lower
  -- case succeeds, and the type is gone for the next read.
  pub get_type-deactivate :
      (now later at : ℕ) (name actor : String) (w : Worker mongo) (t : TypeDoc)
      → lower name ≡ name
      → AreDistinct w
      → mongo.find_one (active_named name) w.types ≡ some t
      → ((deactivate_type mongo at name actor w).0 ≡ ok tt)
        × ((get_type mongo now later name (deactivate_type mongo at name actor w).1).0 ≡ none)
  unfolding deactivate_type
  get_type-deactivate now later at name actor w t low unique h =
      let w' = record w {
        types = mongo.update_one (active_named name) (deactivated at actor) w.types;
      } in
      let h' : mongo.find_one (active_named (lower name)) w.types ≡ some t = rw low h in
      rw (h', deactivate_type, low)
        (
          refl,
          get_type-invalidate now later name w' low
              ∙ find_one-update_gone mongo same_type (active_named name) (deactivated at actor)
                  w.types unique (one_active name) (inactive_is_gone name at actor),
        )

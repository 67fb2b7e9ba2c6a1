-- ===== src/Driver/Laws.antt =====
-- What follows from the driver's laws, in the form that the components use.
use cmdboss.Prelude.{
  clashes, first-narrower, first-narrow, Distinct, Distinct-concat, Distinct-update_first,
  first-update_gone, first-delete_gone, ◌≡◌, Bool, true, false, none, some, [], ◌∷◌, ◌++◌, first,
  any, ◌∙◌, Memᴰ, sym, first-append, first-none_of_any, first-append_found, first-update_first,
  first-update_other, first-eq-some, first-eq-none, mem-select, ◌↔◌, ◌⊎◌, inl, inr, some_injective,
  Memᴰ-concat,
}
use cmdboss.Driver.{Driver}

module _ (mongo : Driver) {D : Type 0} where
  open mongo use {Coll, docs, find, find_one, insert_one, update_one, insert_lem, find_one_lem}

  -- An insert that is accepted met no conflict, and puts the document last.
  pub insert_docs :
      (same : D → D → Bool) (d : D) (c c' : Coll D)
      → insert_one same d c ≡ some c'
      → (any (same d) (docs c) ≡ false) × (docs c' ≡ docs c ++ d ∷ [])
  insert_docs same d c c' e = elim (insert_lem same d c) [
    | inl (clash, refused) ↦ cc
    | inr (c'', free, accepted, appended) ↦ (free, rw (some_injective (sym e ∙ accepted)) appended)
  ]

  pub insert-eq-none :
      (same : D → D → Bool) (d : D) (c : Coll D)
      → insert_one same d c ≡ none
      → any (same d) (docs c) ≡ true
  insert-eq-none same d c e = elim (insert_lem same d c) [
    | inl (clash, refused) ↦ clash
    | inr (c'', free, accepted, appended) ↦ cc
  ]

  pub insert_free :
      (same : D → D → Bool) (d : D) (c : Coll D)
      → any (same d) (docs c) ≡ false
      → (c' : Coll D) × (insert_one same d c ≡ some c')
  insert_free same d c e = elim (insert_lem same d c) [
    | inl (clash, refused) ↦ cc
    | inr (c', free, accepted, appended) ↦ (c', accepted)
  ]

  -- An update that is accepted is the update, and one that clashes with nothing is accepted.
  pub update_unique_ok :
      (same : D → D → Bool) (q : D → Bool) (f : D → D) (c c' : Coll D)
      → mongo.update_unique same q f c ≡ some c'
      → c' ≡ update_one q f c
  update_unique_ok same q f c c' e = elim (mongo.update_unique_lem same q f c) [
    | inl (clash, refused) ↦ cc
    | inr (free, accepted) ↦ some_injective (sym e ∙ accepted)
  ]

  pub update_unique_free :
      (same : D → D → Bool) (q : D → Bool) (f : D → D) (c : Coll D)
      → clashes same q f (docs c) ≡ false
      → mongo.update_unique same q f c ≡ some (update_one q f c)
  update_unique_free same q f c e = elim (mongo.update_unique_lem same q f c) [
    | inl (clash, refused) ↦ cc
    | inr (free, accepted) ↦ accepted
  ]

  pub insert_clash :
      (same : D → D → Bool) (d : D) (c : Coll D)
      → any (same d) (docs c) ≡ true
      → insert_one same d c ≡ none
  insert_clash same d c e = elim (insert_lem same d c) [
    | inl (clash, refused) ↦ refused
    | inr (c'', free, accepted, appended) ↦ cc
  ]

  -- A query whose matches would all clash with the new document finds it and nothing else.
  pub find_one-insert :
      (same : D → D → Bool) (q : D → Bool) (d : D) (c c' : Coll D)
      → insert_one same d c ≡ some c'
      → ((a : D) → q a ≡ true → same d a ≡ true)
      → q d ≡ true
      → find_one q c' ≡ some d
  find_one-insert same q d c c' e sub hit =
      let (free, appended) = insert_docs same d c c' e in
      rw
        (
          find_one_lem q c',
          appended,
          first-append q (docs c) (d ∷ []) (first-none_of_any q (same d) (docs c) sub free),
        )
        (unfold first in rw hit)

  -- A match from before the insert is still the one that is found.
  pub find_one-insert_kept :
      (same : D → D → Bool) (q : D → Bool) (d a : D) (c c' : Coll D)
      → insert_one same d c ≡ some c'
      → find_one q c ≡ some a
      → find_one q c' ≡ some a
  find_one-insert_kept same q d a c c' e found =
      rw (find_one_lem q c', (insert_docs same d c c' e).1)
        (first-append_found q (docs c) (d ∷ []) a (rw (find_one_lem q c) at found))

  -- An update that keeps the query is found where the old document was.
  pub find_one-update :
      (q : D → Bool) (f : D → D) (a : D) (c : Coll D)
      → find_one q c ≡ some a
      → q (f a) ≡ true
      → find_one q (update_one q f c) ≡ some (f a)
  find_one-update q f a c found keep =
      rw (find_one_lem q (update_one q f c), mongo.docs-update_one q f c)
        (first-update_first q f (docs c) a (rw (find_one_lem q c) at found) keep)

  -- An update of documents that another query misses, before and after, is not seen by it.
  pub find_one-update_other :
      (p q : D → Bool) (f : D → D) (c : Coll D)
      → ((a : D) → q a ≡ true → p a ≡ false)
      → ((a : D) → q a ≡ true → p (f a) ≡ false)
      → find_one p (update_one q f c) ≡ find_one p c
  find_one-update_other p q f c before after =
      rw (find_one_lem p (update_one q f c), find_one_lem p c, mongo.docs-update_one q f c)
        (first-update_other p q f (docs c) before after)

  pub find_one-eq-some :
      (q : D → Bool) (c : Coll D) (a : D) → find_one q c ≡ some a → Memᴰ a (docs c) × (q a ≡ true)
  find_one-eq-some q c a e = first-eq-some q (docs c) a (rw (find_one_lem q c) at e)

  pub find_one-eq-none :
      (q : D → Bool) (c : Coll D) (a : D) → find_one q c ≡ none → Memᴰ a (docs c) → q a ≡ false
  find_one-eq-none q c a e = first-eq-none q (docs c) a (rw (find_one_lem q c) at e)

  pub mem-find :
      (q : D → Bool) (c : Coll D) (a : D) → Memᴰ a (find q c) ↔ (Memᴰ a (docs c) × (q a ≡ true))
  mem-find q c a = rw (mongo.find_lem q c) (mem-select q a (docs c))

  pub mem-insert :
      (same : D → D → Bool) (d : D) (c c' : Coll D) (a : D)
      → insert_one same d c ≡ some c'
      → Memᴰ a (docs c') ↔ (Memᴰ a (docs c) ⊎ (a ≡ d))
  mem-insert same d c c' a e = rw (insert_docs same d c c' e).1 (Memᴰ-concat a d (docs c))

  -- With at most one match, an update that takes the match out of the query leaves none.
  pub find_one-update_gone :
      (same : D → D → Bool) (q : D → Bool) (f : D → D) (c : Coll D)
      → Distinct same (docs c)
      → ((a b : D) → q a ≡ true → q b ≡ true → same a b ≡ true)
      → ((a : D) → q (f a) ≡ false)
      → find_one q (update_one q f c) ≡ none
  find_one-update_gone same q f c unique one gone =
      rw (find_one_lem q (update_one q f c), mongo.docs-update_one q f c)
        (first-update_gone same q f (docs c) unique one gone)

  pub find_one-delete_gone :
      (same : D → D → Bool) (q : D → Bool) (c : Coll D)
      → Distinct same (docs c)
      → ((a b : D) → q a ≡ true → q b ≡ true → same a b ≡ true)
      → find_one q (mongo.delete_one q c) ≡ none
  find_one-delete_gone same q c unique one =
      rw (find_one_lem q (mongo.delete_one q c), mongo.docs-delete_one q c)
        (first-delete_gone same q (docs c) unique one)

  -- the unique indexes keep the documents distinct
  pub insert-Distinct :
      (same : D → D → Bool) (d : D) (c c' : Coll D)
      → ((a b : D) → same a b ≡ same b a)
      → insert_one same d c ≡ some c'
      → Distinct same (docs c)
      → Distinct same (docs c')
  insert-Distinct same d c c' symm e h =
      let (free, appended) = insert_docs same d c c' e in
      rw appended (Distinct-concat same d (docs c) symm h free)

  pub update-Distinct :
      (same : D → D → Bool) (q : D → Bool) (f : D → D) (c : Coll D)
      → ((a b : D) → same (f a) b ≡ same a b)
      → ((a b : D) → same a (f b) ≡ same a b)
      → Distinct same (docs c)
      → Distinct same (docs (update_one q f c))
  update-Distinct same q f c l r h =
      rw (mongo.docs-update_one q f c) (Distinct-update_first same q f (docs c) l r h)

  pub find_one-narrow :
      (p q : D → Bool) (c : Coll D) (a : D)
      → ((b : D) → p b ≡ true → q b ≡ true)
      → find_one q c ≡ some a
      → p a ≡ true
      → find_one p c ≡ some a
  find_one-narrow p q c a sub h hit =
      rw (find_one_lem p c) (first-narrow p q (docs c) a sub (rw (find_one_lem q c) at h) hit)

  pub find_one-narrower :
      (same : D → D → Bool) (p q : D → Bool) (f : D → D) (c : Coll D) (a b : D)
      → Distinct same (docs c)
      → ((d e : D) → p d ≡ true → p e ≡ true → same d e ≡ true)
      → ((d : D) → q d ≡ true → p d ≡ true)
      → find_one p c ≡ some a
      → find_one q c ≡ some b
      → p (f b) ≡ true
      → (a ≡ b) × (find_one p (update_one q f c) ≡ some (f b))
  find_one-narrower same p q f c a b unique one sub ha hb keep =
      rw (find_one_lem p (update_one q f c), mongo.docs-update_one q f c)
        (first-narrower same p q f (docs c) a b unique one sub (rw (find_one_lem p c) at ha)
          (rw (find_one_lem q c) at hb) keep)

-- ===== src/Driver.antt =====
-- What the program uses of MongoDB (motor, pymongo) and of bson's ObjectId, which are not part of
-- the repository: an interface with the documented laws. A collection's documents are listed in
-- natural order. Indexes are the program's own (db.py), so an insert or update is told which documents the
-- unique indexes of its collection hold to be the same.
pub mod InMemory
pub mod Laws
use cmdboss.Prelude.{
  ℕ, suc, ◌≤◌, ◌≡◌, ◌⊎◌, Bool, true, false, String, Option, none, some, List, [], ◌∷◌, ◌++◌, Memᴰ,
  length, select, first, any, clashes, update_first, delete_first, not, drop, sort, limited, tie,
  IsLinear, Distinct,
}

pub record Driver : Type 1 where
  pub Coll : Type 0 → Type 0
  -- find({}), count_documents, find(query), find_one(query)
  pub docs : {D : Type 0} → Coll D → List D
  pub find : {D : Type 0} → (D → Bool) → Coll D → List D
  pub find_one : {D : Type 0} → (D → Bool) → Coll D → Option D
  pub count_documents : {D : Type 0} → (D → Bool) → Coll D → ℕ
  -- find(query).sort(key).skip(n).limit(m): the order is the Boolean `≤` on the sort keys,
  -- and a limit of 0 is no limit
  pub find_sorted : {D : Type 0} → (D → D → Bool) → ℕ → ℕ → (D → Bool) → Coll D → List D
  -- insert_one: `none` is a DuplicateKeyError
  pub insert_one : {D : Type 0} → (D → D → Bool) → D → Coll D → Option (Coll D)
  -- update_one and find_one_and_update change the document that find_one returns, if any:
  -- `update_one` where the `$set` is of fields that no unique index has
  pub update_one : {D : Type 0} → (D → Bool) → (D → D) → Coll D → Coll D
  -- and under unique indexes: `none` is a DuplicateKeyError
  pub update_unique :
      {D : Type 0} → (D → D → Bool) → (D → Bool) → (D → D) → Coll D → Option (Coll D)
  pub delete_one : {D : Type 0} → (D → Bool) → Coll D → Coll D
  pub delete_many : {D : Type 0} → (D → Bool) → Coll D → Coll D
  -- ObjectId(text), which raises InvalidId, and str(oid)
  pub object_id : String → Option ℕ
  pub id_text : ℕ → String
  pub find_lem : {D : Type 0} (q : D → Bool) (c : Coll D) → find q c ≡ select q (docs c)
  pub find_one_lem : {D : Type 0} (q : D → Bool) (c : Coll D) → find_one q c ≡ first q (docs c)
  pub count_lem :
      {D : Type 0} (q : D → Bool) (c : Coll D) → count_documents q c ≡ length (select q (docs c))
  pub mem-find_sorted :
      {D : Type 0} (le : D → D → Bool) (skip limit : ℕ) (q : D → Bool) (c : Coll D) (d : D)
      → Memᴰ d (find_sorted le skip limit q c)
      → Memᴰ d (docs c) × (q d ≡ true)
  pub length-find_sorted :
      {D : Type 0} (le : D → D → Bool) (skip limit : ℕ) (q : D → Bool) (c : Coll D)
      → length (find_sorted le skip (suc limit) q c) ≤ suc limit
  -- in an order in which no two documents tie, what is returned is determined
  pub find_sorted_lem :
      {D : Type 0} (le : D → D → Bool) (skip limit : ℕ) (q : D → Bool) (c : Coll D)
      → IsLinear le
      → Distinct (tie le) (docs c)
      → find_sorted le skip limit q c ≡ limited limit (drop skip (sort le (select q (docs c))))
  pub insert_lem :
      {D : Type 0} (same : D → D → Bool) (d : D) (c : Coll D)
      → (any (same d) (docs c) ≡ true) × (insert_one same d c ≡ none)
        ⊎ ((c' : Coll D) × (any (same d) (docs c) ≡ false)
            × (insert_one same d c ≡ some c')
            × (docs c' ≡ docs c ++ d ∷ []))
  pub docs-update_one :
      {D : Type 0} (q : D → Bool) (f : D → D) (c : Coll D)
      → docs (update_one q f c) ≡ update_first q f (docs c)
  -- an update is refused exactly where another document is the same as what it makes
  pub update_unique_lem :
      {D : Type 0} (same : D → D → Bool) (q : D → Bool) (f : D → D) (c : Coll D)
      → (clashes same q f (docs c) ≡ true) × (update_unique same q f c ≡ none)
        ⊎ (clashes same q f (docs c) ≡ false) × (update_unique same q f c ≡ some (update_one q f c))
  pub docs-delete_one :
      {D : Type 0} (q : D → Bool) (c : Coll D) → docs (delete_one q c) ≡ delete_first q (docs c)
  pub docs-delete_many :
      {D : Type 0} (q : D → Bool) (c : Coll D)
      → docs (delete_many q c) ≡ select (λ d. not (q d)) (docs c)
  pub object_id-id_text : (n : ℕ) → object_id (id_text n) ≡ some n

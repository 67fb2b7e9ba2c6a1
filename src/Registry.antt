-- ===== src/Registry.antt =====
-- cmdboss/registry.py: the persistent registry of CI types, with the caches of one worker. An
-- operation takes the readings of the clocks that it makes (`now` of time.monotonic(), `at` of
-- utcnow()) and returns the worker that it leaves, also when it raises.
pub mod Writes
use cmdboss.Prelude.{
  ℕ, ◌+◌, String, Bool, true, false, ◌&&◌, ◌||◌, Option, none, some, List, [], ◌∷◌, Dict, lookup,
  insert, remove, str_eq, leb, ◌==◌, if◌then◌else◌,
}
use cmdboss.Text.{lower, text_le}
use cmdboss.Schema.{FieldSpec, IndexSpec, CiTypeDefinition, Checked, valid, invalid, coherent}
use cmdboss.Schema.Compile.{FieldDefinition, compile_model}
use cmdboss.Errors.{Error}
use cmdboss.Errors.Result.{Result, ok, err}
use cmdboss.Driver.{Driver}

-- a document of `_ci_types`
pub record TypeDoc : Type 0 where
  pub id : ℕ
  pub name : String
  pub description : Option String
  pub fields : Dict FieldSpec
  pub indexes : List IndexSpec
  pub version : ℕ
  pub active : Bool
  pub created_at : ℕ
  pub updated_at : ℕ
  pub created_by : String
  pub updated_by : String

-- what create_model is given stands for the model class that it returns
abbrev pub Model : Type 0
Model = Dict FieldDefinition

-- the unique indexes of the collection: `_id` and `uq_type_name`
abbrev pub same_type : TypeDoc → TypeDoc → Bool
same_type a b = a.id == b.id || str_eq b.name a.name

-- {"name": name, "active": True}
abbrev pub active_named : String → TypeDoc → Bool
active_named name d = str_eq d.name name && d.active

abbrev pub new_type : ℕ → ℕ → CiTypeDefinition → String → TypeDoc
new_type id at d actor = record {
  id = id;
  name = d.name;
  description = d.description;
  fields = d.fields;
  indexes = d.indexes;
  version = 1;
  active = true;
  created_at = at;
  updated_at = at;
  created_by = actor;
  updated_by = actor;
}

-- the `$set` of update_type
abbrev pub revised : ℕ → ℕ → CiTypeDefinition → String → TypeDoc → TypeDoc
revised version at d actor t = record t {
  description = d.description;
  fields = d.fields;
  indexes = d.indexes;
  version = version;
  updated_at = at;
  updated_by = actor;
}

-- the `$set` of deactivate_type
abbrev pub deactivated : ℕ → String → TypeDoc → TypeDoc
deactivated at actor t = record t { active = false; updated_at = at; updated_by = actor }

module _ (mongo : Driver) where
  open mongo use {Coll, find_one, find_sorted, insert_one, update_one}

  pub record Worker : Type 0 where
    pub types : Coll TypeDoc
    pub type_cache : Dict (ℕ × Option TypeDoc)
    pub model_cache : Dict (ℕ × Model)
    pub ttl : ℕ

  -- the entry that `_cache_get` returns, if it is there and fresh
  unfoldable pub fresh : ℕ → Option (ℕ × Option TypeDoc) → Option (Option TypeDoc)
  fresh now none = none
  fresh now (some (expires_at, doc)) = if leb expires_at now then none else some doc

  -- `_cache_get`: an expired entry is dropped
  unfoldable pub cache_get : ℕ → String → Worker → Option (Option TypeDoc) × Worker
  unfolding fresh
  cache_get now name w = elim (fresh now (lookup name w.type_cache)) [
    | none ↦ (none, record w { type_cache = remove name w.type_cache })
    | some doc ↦ (some doc, w)
  ]

  unfoldable pub cache_put : ℕ → String → Option TypeDoc → Worker → Worker
  cache_put now name doc w = record w { type_cache = insert name (now + w.ttl, doc) w.type_cache }

  unfoldable pub invalidate : String → Worker → Worker
  invalidate name w = record w {
    type_cache = remove name w.type_cache;
    model_cache = remove name w.model_cache;
  }

  read_through : ℕ → String → Option (Option TypeDoc) × Worker → Option TypeDoc × Worker
  unfolding cache_put
  read_through now name (some doc, w) = (doc, w)
  read_through now name (none, w) =
      let doc = find_one (active_named name) w.types in (doc, cache_put now name doc w)

  -- the two readings are those of `_cache_get` and of `_cache_put`
  unfoldable pub get_type : ℕ → ℕ → String → Worker → Option TypeDoc × Worker
  unfolding read_through cache_get
  get_type now later name w = let key = lower name in read_through later key (cache_get now key w)

  abbrev pub or_not_found {ℓ} : {A : Type ℓ} → Option A → Result A
  or_not_found none = err Error.not_found
  or_not_found (some a) = ok a

  unfoldable pub get_type_strict : String → Worker → Result TypeDoc
  get_type_strict name w = or_not_found (find_one (active_named (lower name)) w.types)

  unfoldable pub list_types : Bool → Worker → List TypeDoc
  list_types include_inactive w =
      find_sorted (λ a b. text_le a.name b.name) 0 0 (λ d. include_inactive || d.active) w.types

  -- {fname: FieldSpec(**spec)}: the stored specifications pass the validators again
  rebuild : (String → Bool) → Dict FieldSpec → Result (Dict FieldSpec)
  rebuild compiles [] = ok []
  rebuild compiles ((k, spec) ∷ fields) =
      let rest = rebuild compiles fields in
      elim (coherent compiles spec) [
        | invalid flaw ↦ err Error.invalid_model
        | valid s ↦ elim rest [ err e ↦ err e | ok ss ↦ ok ((k, s) ∷ ss) ]
      ]

  -- compile_model on what `rebuild` returns; what it raises is no AppError
  build : (String → Model → Bool) → String → Result (Dict FieldSpec) → Result Model
  build creates name (err e) = err e
  build creates name (ok fields) = elim (compile_model creates name fields) [
    | none ↦ err Error.unexpected
    | some m ↦ ok m
  ]

  -- the cached model of this version
  cached_model : ℕ → Option (ℕ × Model) → Option Model
  cached_model version none = none
  cached_model version (some (v, model)) = if v == version then some model else none

  keep_model : String → ℕ → Result Model → Worker → Result Model × Worker
  keep_model name version (err e) w = (err e, w)
  keep_model name version (ok model) w =
      (ok model, record w { model_cache = insert name (version, model) w.model_cache })

  compile_doc :
      (String → Bool)
      → (String → Model → Bool)
      → String
      → Option TypeDoc × Worker
      → Result Model × Worker
  unfolding rebuild build cached_model keep_model
  compile_doc compiles creates name (none, w) = (err Error.not_found, w)
  compile_doc compiles creates name (some doc, w) =
      elim (cached_model doc.version (lookup name w.model_cache)) [
        | some model ↦ (ok model, w)
        | none ↦ keep_model name doc.version (build creates name (rebuild compiles doc.fields)) w
      ]

  unfoldable pub compile :
      (String → Bool) → (String → Model → Bool) → ℕ → ℕ → String → Worker → Result Model × Worker
  unfolding compile_doc
  compile compiles creates now later name w =
      let key = lower name in compile_doc compiles creates key (get_type now later key w)

  -- `ensure_ci_indexes` of db.py, which may raise; then the caches are left as they are
  after_indexes : Bool → String → Worker → Result TypeDoc → Result TypeDoc × Worker
  unfolding invalidate
  after_indexes false name w r = (err Error.unexpected, w)
  after_indexes true name w r = (r, invalidate name w)

  inserted : Bool → TypeDoc → Worker → Option (Coll TypeDoc) → Result TypeDoc × Worker
  unfolding after_indexes
  inserted indexed doc w none = (err Error.conflict, w)
  inserted indexed doc w (some types) =
      after_indexes indexed doc.name (record w { types = types }) (ok doc)

  unfoldable pub create_type :
      ℕ → ℕ → Bool → CiTypeDefinition → String → Worker → Result TypeDoc × Worker
  unfolding inserted
  create_type id at indexed d actor w =
      let doc = new_type id at d actor in inserted indexed doc w (insert_one same_type doc w.types)

  replaced :
      Bool
      → ℕ
      → CiTypeDefinition
      → String
      → String
      → Worker
      → Result TypeDoc
      → Result TypeDoc × Worker
  unfolding after_indexes
  replaced indexed at d actor name w (err e) = (err e, w)
  replaced indexed at d actor name w (ok existing) =
      let w' = record w {
        types = update_one (active_named name) (revised (existing.version + 1) at d actor) w.types;
      } in
      after_indexes indexed name w' (get_type_strict name w')

  unfoldable pub update_type :
      ℕ → Bool → String → CiTypeDefinition → String → Worker → Result TypeDoc × Worker
  unfolding replaced
  update_type at indexed url d actor w =
      let name = lower url in
      if str_eq d.name name
      then replaced indexed at d actor name w (get_type_strict name w)
      else (err Error.conflict, w)

  -- matched_count is 0 where find_one finds nothing
  unfoldable pub deactivate_type : ℕ → String → String → Worker → Result (Unit {0}) × Worker
  unfolding invalidate
  deactivate_type at url actor w =
      let name = lower url in
      elim (find_one (active_named name) w.types) [
        | none ↦ (err Error.not_found, w)
        | some _ ↦ (
          ok tt,
          invalidate name
              (record w { types = update_one (active_named name) (deactivated at actor) w.types }),
        )
      ]

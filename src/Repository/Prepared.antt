-- ===== src/Repository/Prepared.antt =====
-- The steps before the write of an operation: they touch the caches of the worker only.
use cmdboss.Prelude.{
  ℕ, ◌≡◌, refl, sym, ◌∙◌, ap, String, Option, none, some, Dict, inl, inr, Option-cases,
}
use cmdboss.Errors.Result.{Result, ok}
use cmdboss.Value.{Value}
use cmdboss.Driver.{Driver}
use cmdboss.Registry
use cmdboss.Registry.{TypeDoc}
use cmdboss.Store.{Store, Config, Readings}
use cmdboss.Store.Frame.{SameData, SameData-trans}
use cmdboss.Repository.{type_doc, compiled, validated, found_type, with_worker, parse_object_id}

module _ (mongo : Driver) (cfg : Config mongo) where
  found_type-state : (x : Option TypeDoc × Store mongo) → (found_type mongo cfg x).1 ≡ x.1
  unfolding found_type
  found_type-state (none, s) = refl
  found_type-state (some t, s) = refl

  pub type_doc-SameData :
      (r : Readings) (type_name : String) (s s' : Store mongo) (x : Result TypeDoc)
      → type_doc mongo cfg r type_name s ≡ (x, s')
      → SameData mongo s s'
  unfolding type_doc SameData
  type_doc-SameData r type_name s s' x h =
      let w = Registry.get_type mongo r.tick_1 r.tick_2 type_name s.worker in
      let e = sym (found_type-state (with_worker mongo cfg s w)) ∙ ap (λ y. y.1) h in
      rw (sym e) (refl, refl, refl, refl)

  pub compiled-SameData :
      (r : Readings) (type_name : String) (s s' : Store mongo) (x : Result Registry.Model)
      → compiled mongo cfg r type_name s ≡ (x, s')
      → SameData mongo s s'
  unfolding compiled SameData
  compiled-SameData r type_name s s' x h = rw (sym (ap (λ y. y.1) h)) (refl, refl, refl, refl)

  pub validated-state :
      (model : Registry.Model) (payload : Dict Value) (s s' : Store mongo) (x : Result (Dict Value))
      → validated mongo cfg model payload s ≡ (x, s')
      → s' ≡ s
  unfolding validated
  validated-state model payload s s' x h = elim (Option-cases (cfg.validate model payload)) [
    | inl e ↦ cc (rw (e, validated) at h)
    | inr (d, e) ↦ cc (rw (e, validated) at h)
  ]

  pub prepared-SameData :
      (r : Readings) (type_name : String) (payload : Dict Value) (s s1 s2 s3 : Store mongo)
      (model : Registry.Model) (x : Result TypeDoc) (y : Result Registry.Model)
      (z : Result (Dict Value))
      → type_doc mongo cfg r type_name s ≡ (x, s1)
      → compiled mongo cfg r type_name s1 ≡ (y, s2)
      → validated mongo cfg model payload s2 ≡ (z, s3)
      → SameData mongo s s3
  prepared-SameData r type_name payload s s1 s2 s3 model x y z h1 h2 h3 =
      rw (validated-state model payload s2 s3 z h3) (
        SameData-trans mongo s s1 s2 (type_doc-SameData r type_name s s1 x h1)
          (compiled-SameData r type_name s1 s2 y h2))

  pub prepared-idempotency :
      (r : Readings) (type_name : String) (payload : Dict Value) (s s1 s2 s3 : Store mongo)
      (model : Registry.Model) (x : Result TypeDoc) (y : Result Registry.Model)
      (z : Result (Dict Value))
      → type_doc mongo cfg r type_name s ≡ (x, s1)
      → compiled mongo cfg r type_name s1 ≡ (y, s2)
      → validated mongo cfg model payload s2 ≡ (z, s3)
      → s3.idempotency ≡ s.idempotency
  unfolding type_doc compiled
  prepared-idempotency r type_name payload s s1 s2 s3 model x y z h1 h2 h3 =
      let w = Registry.get_type mongo r.tick_1 r.tick_2 type_name s.worker in
      let e1 = sym (found_type-state (with_worker mongo cfg s w)) ∙ ap (λ a. a.1) h1 in
      let e2 = ap (λ a. a.1) h2 in
      rw (validated-state model payload s2 s3 z h3, sym e2, sym e1) refl

  pub parse_object_id-cases :
      (value : String) (s s' : Store mongo) (x : Result ℕ)
      → parse_object_id mongo cfg value s ≡ (x, s')
      → s' ≡ s
  unfolding parse_object_id
  parse_object_id-cases value s s' x h = elim (Option-cases (mongo.object_id value)) [
    | inl e ↦ cc (rw (parse_object_id, e) at h)
    | inr (n, e) ↦ cc (rw (parse_object_id, e) at h)
  ]

  pub parse_object_id_ok :
      (value : String) (s s' : Store mongo) (oid : ℕ)
      → parse_object_id mongo cfg value s ≡ (ok oid, s')
      → mongo.object_id value ≡ some oid
  unfolding parse_object_id
  parse_object_id_ok value s s' oid h = elim (Option-cases (mongo.object_id value)) [
    | inl e ↦ cc (rw (parse_object_id, e) at h)
    | inr (n, e) ↦ let k = rw (parse_object_id, e) at h in cc
  ]

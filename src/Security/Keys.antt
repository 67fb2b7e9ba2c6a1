-- ===== src/Security/Keys.antt =====
-- Which keys let a caller in.
use cmdboss.Prelude.{
  ℕ, ◌≡◌, ◌≢◌, refl, sym, ap, ◌∙◌, String, true, false, Option, some, List, Option-cases,
  Bool-cases, inl, inr, arith, str_eq, eq_iff, ==_iff, Distinct, Memᴰ, some_injective,
}
use cmdboss.Errors.Result.{ok}
use cmdboss.Driver.{Driver}
use cmdboss.Driver.Laws.{find_one-insert, find_one-eq-some, find_one-eq-none, find_one-update_gone}
use cmdboss.Security.{
  Principal, KeyDoc, same_key, hashed, active_id, deduplicated, known_scopes, new_key, revoked,
  is_expired, principal_of, accept, authenticate, create_api_key, revoke_found, revoke_api_key,
}

module _ (mongo : Driver) (hash_key : String → String) where
  -- A key that was made authenticates its secret, where that is not empty, until it expires, with
  -- the name and the scopes that it was made with, each scope once.
  pub authenticate-create :
      (throttle now later id at : ℕ) (raw name : String) (scopes : List String)
      (expires_at : Option ℕ) (c : mongo.Coll KeyDoc) (doc : KeyDoc)
      → raw ≢ ""
      → is_expired now expires_at ≡ false
      → (create_api_key mongo hash_key id at raw name scopes expires_at c).0 ≡ ok doc
      → (authenticate mongo hash_key throttle now later raw
          (create_api_key mongo hash_key id at raw name scopes expires_at c).1).0
        ≡ some (record { id = mongo.id_text id; name = name; scopes = deduplicated scopes })
  unfolding create_api_key authenticate accept principal_of
  authenticate-create throttle now later id at raw name scopes expires_at c doc given fresh h =
      let made = new_key id at name (hash_key raw) raw (deduplicated scopes) expires_at in
      let filled : str_eq raw "" ≡ false = ground (arith, eq_iff raw "") in
      elim (Bool-cases (known_scopes (deduplicated scopes))) [
        | inr k ↦ cc (rw k at h)
        | inl k ↦ elim (Option-cases (mongo.insert_one same_key made c)) [
          | inl e ↦ cc (rw (create_api_key, k, e) at h)
          | inr (c', e) ↦
              let found =
                find_one-insert mongo same_key (hashed (hash_key raw)) made c c' e
                  (λ a hit. ground arith) (ground (arith, eq_iff (hash_key raw) (hash_key raw))) in
              rw (create_api_key, k, e, authenticate, filled, found, accept, fresh) refl
        ]
      ]

  -- who is authenticated holds an active key
  authenticated :
      (throttle now later : ℕ) (credentials : String) (c : mongo.Coll KeyDoc) (p : Principal)
      → (authenticate mongo hash_key throttle now later credentials c).0 ≡ some p
      → (d : KeyDoc) × Memᴰ d (mongo.docs c) × (d.active ≡ true) × (p.id ≡ mongo.id_text d.id)
  unfolding authenticate accept principal_of
  authenticated throttle now later credentials c p h = elim (Bool-cases (str_eq credentials "")) [
    | inl e ↦ cc (rw e at h)
    | inr e ↦ elim (Option-cases (mongo.find_one (hashed (hash_key credentials)) c)) [
      | inl f ↦ cc (rw (authenticate, e, f, accept) at h)
      | inr (d, f) ↦
          let (mem, hit) = find_one-eq-some mongo (hashed (hash_key credentials)) c d f in
          elim (Bool-cases (is_expired now d.expires_at)) [
            | inl g ↦ cc (rw (authenticate, e, f, accept, g) at h)
            | inr g ↦
                let k = rw (authenticate, e, f, accept, g) at h in
                (d, mem, ground arith, ap (λ q. q.id) (sym (some_injective k)))
          ]
    ]
  ]

  active_one :
      (oid : ℕ) (a b : KeyDoc)
      → active_id oid a ≡ true
      → active_id oid b ≡ true
      → same_key a b ≡ true
  active_one oid a b x y = ground (arith, ==_iff a.id oid, ==_iff b.id oid, ==_iff a.id b.id)

  -- no two keys share an id or a hash
  abbrev pub AreDistinctKeys : mongo.Coll KeyDoc → Type 0
  AreDistinctKeys c = Distinct same_key (mongo.docs c)

  -- Where ids and hashes of keys are unique, no credentials authenticate as a key after its
  -- revocation.
  pub authenticate-revoke :
      (throttle now later at oid : ℕ) (key_id credentials : String) (c : mongo.Coll KeyDoc)
      (p : Principal)
      → AreDistinctKeys c
      → mongo.object_id key_id ≡ some oid
      → (revoke_api_key mongo hash_key at key_id c).0 ≡ ok tt
      → (authenticate mongo hash_key throttle now later credentials
          (revoke_api_key mongo hash_key at key_id c).1).0
        ≡ some p
      → p.id ≢ mongo.id_text oid
  unfolding revoke_api_key revoke_found
  authenticate-revoke throttle now later at oid key_id credentials c p unique parsed h k =
      elim (Option-cases (mongo.find_one (active_id oid) c)) [
        | inl e ↦ cc (rw (revoke_api_key, parsed, revoke_found, e) at h)
        | inr (d, e) ↦ λ same.
            let c' = mongo.update_one (active_id oid) (revoked at) c in
            let gone =
              find_one-update_gone mongo same_key (active_id oid) (revoked at) c unique
                (active_one oid) (λ a. ground arith) in
            let k' = rw (revoke_api_key, parsed, revoke_found, e) at k in
            let (d', mem, active, named) = authenticated throttle now later credentials c' p k' in
            let ids : d'.id ≡ oid = some_injective (
              sym (mongo.object_id-id_text d'.id)
              ∙ ap mongo.object_id (sym named ∙ same)
              ∙ mongo.object_id-id_text oid) in
            let missed = find_one-eq-none mongo (active_id oid) c' d' gone mem in
            ground (arith, ==_iff d'.id oid)
      ]

-- ===== src/Security.antt =====
-- cmdboss/security.py: API keys, the scopes of a principal, and the dependency that guards a route. The
-- hash of a key, the fresh secret and the check of a bearer token are hashlib's, secrets' and jwt's, and
-- stand as parameters. The header of a request is given by its two fields.
pub mod Keys
pub mod Access
use cmdboss.Prelude.{
  ℕ, ◌+◌, String, Bool, true, false, ◌&&◌, ◌||◌, not, Option, none, some, List, [], ◌∷◌, any,
  select, str_eq, ◌==◌, leb, ltb, if◌then◌else◌,
}
use cmdboss.Errors.{Error}
use cmdboss.Errors.Result.{Result, ok, err}
use cmdboss.Driver.{Driver}
use cmdboss.Outbox.{text_take}
use cmdboss.RateLimit.{RateLimiter}
use cmdboss.RateLimit

abbrev pub scope_admin : String
scope_admin = "admin"

abbrev pub all_scopes : List String
all_scopes = "types:read" ∷ "types:write" ∷ "ci:read" ∷ "ci:write" ∷ "admin" ∷ []

pub record Principal : Type 0 where
  pub id : String
  pub name : String
  pub scopes : List String

unfoldable pub is_admin : Principal → Bool
is_admin p = any (str_eq scope_admin) p.scopes

unfoldable pub has_scope : Principal → String → Bool
has_scope p scope = is_admin p || any (str_eq scope) p.scopes

-- a document of `_api_keys`
pub record KeyDoc : Type 0 where
  pub id : ℕ
  pub name : String
  pub key_hash : String
  pub prefix : String
  pub scopes : List String
  pub active : Bool
  pub created_at : ℕ
  pub expires_at : Option ℕ
  pub last_used_at : Option ℕ
  pub rotated_at : Option ℕ
  pub revoked_at : Option ℕ

-- the unique indexes of the collection: `_id` and the hash
abbrev pub same_key : KeyDoc → KeyDoc → Bool
same_key a b = a.id == b.id || str_eq b.key_hash a.key_hash

-- {"key_hash": h, "active": True}
abbrev pub hashed : String → KeyDoc → Bool
hashed h d = str_eq d.key_hash h && d.active

-- {"_id": oid, "active": True}
abbrev pub active_id : ℕ → KeyDoc → Bool
active_id oid d = d.id == oid && d.active

-- list(dict.fromkeys(scopes))
unfoldable pub deduplicated : List String → List String
deduplicated [] = []
deduplicated (x ∷ xs) = x ∷ select (λ y. not (str_eq y x)) (deduplicated xs)

unfoldable pub known_scopes : List String → Bool
known_scopes [] = true
known_scopes (x ∷ xs) = any (str_eq x) all_scopes && known_scopes xs

abbrev pub new_key : ℕ → ℕ → String → String → String → List String → Option ℕ → KeyDoc
new_key id at name h raw scopes expires_at = record {
  id = id;
  name = name;
  key_hash = h;
  prefix = text_take 8 raw;
  scopes = scopes;
  active = true;
  created_at = at;
  expires_at = expires_at;
  last_used_at = none;
  rotated_at = none;
  revoked_at = none;
}

abbrev pub revoked : ℕ → KeyDoc → KeyDoc
revoked at d = record d { active = false; revoked_at = some at }

abbrev pub rotated : ℕ → String → String → KeyDoc → KeyDoc
rotated at h raw d = record d { key_hash = h; prefix = text_take 8 raw; rotated_at = some at }

abbrev pub used : ℕ → KeyDoc → KeyDoc
used at d = record d { last_used_at = some at }

-- `exp is not None and exp <= utcnow()`
unfoldable pub is_expired : ℕ → Option ℕ → Bool
is_expired now none = false
is_expired now (some at) = leb at now

-- `last is None or now - last >= throttle`, without subtraction
unfoldable pub is_due : ℕ → ℕ → Option ℕ → Bool
is_due throttle now none = true
is_due throttle now (some last) = leb (last + throttle) now

module _ (mongo : Driver) (hash_key : String → String) where
  open mongo use {Coll, find_one, insert_one, update_one, count_documents, id_text, object_id}

  unfoldable pub principal_of : KeyDoc → Principal
  principal_of d = record { id = id_text d.id; name = d.name; scopes = d.scopes }

  unfoldable pub touch_key : ℕ → ℕ → KeyDoc → Coll KeyDoc → Coll KeyDoc
  touch_key throttle now d c =
      if is_due throttle now d.last_used_at then update_one (λ k. k.id == d.id) (used now) c else c

  -- what `authenticate` does with the key that it finds
  accept : ℕ → ℕ → ℕ → Option KeyDoc → Coll KeyDoc → Option Principal × Coll KeyDoc
  accept throttle now later none c = (none, c)
  accept throttle now later (some d) c =
      if is_expired now d.expires_at
      then (none, c)
      else (some (principal_of d), touch_key throttle later d c)

  -- ApiKeyAuthProvider.authenticate, with its two readings of utcnow()
  unfoldable pub authenticate : ℕ → ℕ → ℕ → String → Coll KeyDoc → Option Principal × Coll KeyDoc
  unfolding accept
  authenticate throttle now later credentials c =
      if str_eq credentials ""
      then (none, c)
      else accept throttle now later (find_one (hashed (hash_key credentials)) c) c

  -- create_api_key, with the fresh secret; an unknown scope is a ValueError
  unfoldable pub create_api_key :
      ℕ → ℕ → String → String → List String → Option ℕ → Coll KeyDoc → Result KeyDoc × Coll KeyDoc
  create_api_key id at raw name scopes expires_at c =
      let kept = deduplicated scopes in
      let doc = new_key id at name (hash_key raw) raw kept expires_at in
      if known_scopes kept
      then elim (insert_one same_key doc c) [
        | none ↦ (err Error.duplicate_key, c)
        | some c' ↦ (ok doc, c')
      ]
      else (err Error.unexpected, c)

  stored : KeyDoc → Option (Coll KeyDoc) → Coll KeyDoc → Result KeyDoc × Coll KeyDoc
  stored d none c = (err Error.duplicate_key, c)
  stored d (some c') c = (ok d, c')

  rotate_found : ℕ → String → ℕ → Option KeyDoc → Coll KeyDoc → Result KeyDoc × Coll KeyDoc
  rotate_found at raw oid none c = (err Error.not_found, c)
  rotate_found at raw oid (some d) c =
      stored (rotated at (hash_key raw) raw d)
        (mongo.update_unique same_key (λ k. k.id == oid) (rotated at (hash_key raw) raw) c) c

  unfoldable pub rotate_api_key : ℕ → String → String → Coll KeyDoc → Result KeyDoc × Coll KeyDoc
  unfolding rotate_found stored
  rotate_api_key at raw key_id c = elim (object_id key_id) [
    | none ↦ (err Error.bad_request, c)
    | some oid ↦ rotate_found at raw oid (find_one (active_id oid) c) c
  ]

  revoke_found : ℕ → ℕ → Option KeyDoc → Coll KeyDoc → Result (Unit {0}) × Coll KeyDoc
  revoke_found at oid none c = (err Error.not_found, c)
  revoke_found at oid (some d) c = (ok tt, update_one (active_id oid) (revoked at) c)

  -- matched_count is 0 where find_one finds nothing
  unfoldable pub revoke_api_key : ℕ → String → Coll KeyDoc → Result (Unit {0}) × Coll KeyDoc
  unfolding revoke_found
  revoke_api_key at key_id c = elim (object_id key_id) [
    | none ↦ (err Error.bad_request, c)
    | some oid ↦ revoke_found at oid (find_one (active_id oid) c) c
  ]

  -- ensure_bootstrap_admin: an exception of the insert is swallowed
  unfoldable pub ensure_bootstrap_admin : ℕ → ℕ → Option String → Coll KeyDoc → Coll KeyDoc
  ensure_bootstrap_admin id at none c = c
  ensure_bootstrap_admin id at (some raw) c =
      if str_eq raw "" || ltb 0 (count_documents (λ d. d.active) c)
      then c
      else elim (insert_one same_key
          (new_key id at "bootstrap-admin" (hash_key raw) raw (scope_admin ∷ []) none) c) [
            | none ↦ c
            | some c' ↦ c'
          ]

-- the scopes of `require` that the principal lacks
unfoldable pub missing_scopes : Principal → List String → List String
missing_scopes p scopes = select (λ s. not (has_scope p s)) scopes

abbrev pub anonymous : Principal
anonymous = record { id = "anonymous"; name = "anonymous"; scopes = scope_admin ∷ [] }

admitted : Principal → (Bool × ℕ) × RateLimiter → Result Principal × Option RateLimiter
admitted p ((true, wait), limiter) = (ok p, some limiter)
admitted p ((false, wait), limiter) = (err (Error.rate_limited wait), some limiter)

limited : ℕ → Option RateLimiter → Principal → Result Principal × Option RateLimiter
unfolding admitted
limited now none p = (ok p, none)
limited now (some limiter) p = admitted p (RateLimit.check limiter now p.id)

-- get_principal, on what `_authenticate` returns
unfoldable pub get_principal :
    Bool → ℕ → Option Principal → Option RateLimiter → Result Principal × Option RateLimiter
unfolding limited
get_principal false now who limiter = (ok anonymous, limiter)
get_principal true now none limiter = (err Error.unauthorized, limiter)
get_principal true now (some p) limiter = limited now limiter p

cleared : List String → Result Principal → Result Principal
cleared scopes (err e) = err e
cleared scopes (ok p) = elim (missing_scopes p scopes) [ [] ↦ ok p | _ ∷ _ ↦ err Error.forbidden ]

-- the dependency that `require` builds
unfoldable pub require :
    List String
    → Bool
    → ℕ
    → Option Principal
    → Option RateLimiter
    → Result Principal × Option RateLimiter
unfolding cleared
require scopes enabled now who limiter =
    let (result, limiter') = get_principal enabled now who limiter in
    (cleared scopes result, limiter')

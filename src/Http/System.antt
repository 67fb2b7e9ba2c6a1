-- ===== src/Http/System.antt =====
-- routers/system.py: the administration of API keys and of dead events. The version and the text of
-- the metrics are left out.
use cmdboss.Prelude.{
  ◌≡◌, refl, ℕ, ◌+◌, ◌*◌, String, Bool, true, false, Option, none, some, List, [], ◌∷◌, map, str_eq,
  ◌==◌, if◌then◌else◌, Dict, lookup,
}
use cmdboss.Errors.{Error}
use cmdboss.Errors.Result.{Result, ok, err, Exec, pure, lift, ◌>>=◌, ◌>>◌}
use cmdboss.Driver.{Driver}
use cmdboss.Outbox
use cmdboss.Outbox.{OutboxDoc}
use cmdboss.Security.{
  Principal, KeyDoc, scope_admin, create_api_key, rotate_api_key, revoke_api_key,
}
use cmdboss.Http.Graph.{Reply, reply}

abbrev pub role_presets : Dict (List String)
role_presets =
    ("reader", "types:read" ∷ "ci:read" ∷ [])
    ∷ ("writer", "types:read" ∷ "ci:read" ∷ "ci:write" ∷ [])
    ∷ ("admin", scope_admin ∷ [])
    ∷ []

pub record ApiKeyCreate : Type 0 where
  pub name : String
  pub role : Option String
  pub scopes : Option (List String)
  pub ttl_seconds : Option ℕ

-- what a new or rotated key is answered by: its secret, this once; the answer for a rotated key has
-- no `expires_at`
pub record KeyIssued : Type 0 where
  pub api_key : String
  pub id : String
  pub name : String
  pub prefix : String
  pub scopes : List String
  pub expires_at : Option ℕ

-- what the list shows of a key: all but the hash
pub record KeyInfo : Type 0 where
  pub id : String
  pub name : String
  pub prefix : String
  pub scopes : List String
  pub active : Bool
  pub created_at : ℕ
  pub expires_at : Option ℕ
  pub last_used_at : Option ℕ
  pub rotated_at : Option ℕ
  pub revoked_at : Option ℕ

-- `elif body.scopes`
abbrev pub given_scopes : Option (List String) → Result (List String)
given_scopes none = err Error.bad_request
given_scopes (some []) = err Error.bad_request
given_scopes (some (s ∷ ss)) = ok (s ∷ ss)

abbrev pub preset : Option (List String) → Result (List String)
preset none = err Error.bad_request
preset (some ss) = ok ss

-- the scopes that a request for a key asks for
unfoldable pub scopes_of : Option String → Option (List String) → Result (List String)
scopes_of none scopes = given_scopes scopes
scopes_of (some role) scopes =
    if str_eq role "" then given_scopes scopes else preset (lookup role role_presets)

-- `if body.ttl_seconds`: in the ticks of the clock
unfoldable pub expiry : ℕ → ℕ → Option ℕ → Option ℕ
expiry second now none = none
expiry second now (some ttl) = if ttl == 0 then none else some (now + second * ttl)

-- `except ValueError`
abbrev pub or_bad_request : {A : Type 0} → Result A → Result A
or_bad_request (ok a) = ok a
or_bad_request (err Error.unexpected) = err Error.bad_request
or_bad_request (err e) = err e

abbrev pub ping_reply : Bool → Reply Bool
ping_reply true = reply 200 true
ping_reply false = reply 503 false

-- `readyz`, on whether the database answers
unfoldable pub readyz : Bool → Reply Bool
readyz answers = ping_reply answers

module _ (mongo : Driver) (hash_key : String → String) where
  unfoldable pub issued : String → KeyDoc → Option ℕ → KeyIssued
  issued raw d expires_at = record {
    api_key = raw;
    id = mongo.id_text d.id;
    name = d.name;
    prefix = d.prefix;
    scopes = d.scopes;
    expires_at = expires_at;
  }

  unfoldable pub key_info : KeyDoc → KeyInfo
  key_info d = record {
    id = mongo.id_text d.id;
    name = d.name;
    prefix = d.prefix;
    scopes = d.scopes;
    active = d.active;
    created_at = d.created_at;
    expires_at = d.expires_at;
    last_used_at = d.last_used_at;
    rotated_at = d.rotated_at;
    revoked_at = d.revoked_at;
  }

  unfoldable pub create_key :
      ℕ → ℕ → ℕ → ℕ → String → ApiKeyCreate → Principal → Exec (mongo.Coll KeyDoc) (Reply KeyIssued)
  unfolding scopes_of expiry
  create_key second id now at raw body p = do
    scopes ← lift (scopes_of body.role body.scopes)
    let expires_at = expiry second now body.ttl_seconds
    d ← (λ c.
        let (result, c') = create_api_key mongo hash_key id at raw body.name scopes expires_at c in
        (or_bad_request result, c'))
    pure (reply 201 (issued raw d expires_at))

  unfoldable pub list_keys : Principal → Exec (mongo.Coll KeyDoc) (Reply (List KeyInfo))
  unfolding key_info
  list_keys p c = (ok (reply 200 (map key_info (mongo.find (λ d. true) c))), c)

  unfoldable pub rotate_key :
      ℕ → String → String → Principal → Exec (mongo.Coll KeyDoc) (Reply KeyIssued)
  unfolding issued
  rotate_key at raw key_id p = do
    d ← rotate_api_key mongo hash_key at raw key_id
    pure (reply 200 (issued raw d none))

  unfoldable pub revoke_key : ℕ → String → Principal → Exec (mongo.Coll KeyDoc) (Reply (Unit {0}))
  revoke_key at key_id p = do revoke_api_key mongo hash_key at key_id; pure (reply 204 tt)

module _ (mongo : Driver) where
  unfoldable pub list_dead_events :
      ℕ → Principal → Exec (mongo.Coll OutboxDoc) (Reply (List OutboxDoc))
  list_dead_events limit p c = (ok (reply 200 (Outbox.fetch_dead mongo limit c)), c)

  abbrev pub replayed_or_missing :
      ℕ → Bool × mongo.Coll OutboxDoc → Result (Reply ℕ) × mongo.Coll OutboxDoc
  replayed_or_missing event_id (true, c) = (ok (reply 200 event_id), c)
  replayed_or_missing event_id (false, c) = (err Error.not_found, c)

  unfoldable pub replay_dead_event : ℕ → ℕ → Principal → Exec (mongo.Coll OutboxDoc) (Reply ℕ)
  replay_dead_event now event_id p c =
      replayed_or_missing event_id (Outbox.replay mongo now event_id c)

role_scopes :
    (scopes_of (some "writer") none ≡ ok ("types:read" ∷ "ci:read" ∷ "ci:write" ∷ []))
    × (scopes_of (some "owner") (some ("admin" ∷ [])) ≡ err Error.bad_request)
    × (scopes_of (some "") (some ("ci:read" ∷ [])) ≡ ok ("ci:read" ∷ []))
    × (scopes_of none (some []) ≡ err Error.bad_request)
unfolding scopes_of lookup
role_scopes = (refl, refl, refl, refl)

-- ===== src/Webhooks.antt =====
-- cmdboss/webhooks.py: the registered hooks, and the deliveries of an event to them. What the sender
-- of HTTP requests does at each attempt, the text of a body and HMAC-SHA256 are parameters.
pub mod Attempts
use Prim.Native.String.{◌++◌ as text_append}
use cmdboss.Prelude.{
  ℕ, zero, suc, ◌+◌, ◌^◌, String, Bool, true, false, ◌&&◌, ◌||◌, not, Option, none, some, List, [],
  ◌∷◌, ◌++◌, map, any, min, Dict, str_eq, ◌==◌, leb, ltb, if◌then◌else◌,
}
use cmdboss.Documents.{Event}
use cmdboss.Errors.{Error}
use cmdboss.Errors.Result.{Result, ok, err}
use cmdboss.Driver.{Driver}

-- a document of `_webhooks`
pub record Webhook : Type 0 where
  pub id : ℕ
  pub url : String
  pub event_types : List String
  pub secret : Option String
  pub active : Bool
  pub created_at : ℕ

-- what `register` and `list` show of one: not its secret
pub record WebhookView : Type 0 where
  pub id : String
  pub url : String
  pub event_types : List String
  pub active : Bool
  pub created_at : ℕ

abbrev pub same_webhook : Webhook → Webhook → Bool
same_webhook a b = a.id == b.id

-- a secret that is there and not empty
unfoldable pub secret_of : Option String → Option String
secret_of none = none
secret_of (some s) = if str_eq s "" then none else some s

unfoldable pub has_secret : Option String → Bool
unfolding secret_of
has_secret s = elim (secret_of s) [ none ↦ false | some _ ↦ true ]

-- `event_types or []`
abbrev pub types_of : Option (List String) → List String
types_of none = []
types_of (some ts) = ts

module _ (mongo : Driver) where
  unfoldable pub shown : Webhook → WebhookView
  shown h = record {
    id = mongo.id_text h.id;
    url = h.url;
    event_types = h.event_types;
    active = h.active;
    created_at = h.created_at;
  }

  -- WebhookRegistry.register, with the flag `has_secret`
  unfoldable pub register_webhook :
      ℕ
      → ℕ
      → String
      → Option (List String)
      → Option String
      → mongo.Coll Webhook
      → Result (WebhookView × Bool) × mongo.Coll Webhook
  unfolding shown has_secret
  register_webhook id at url event_types secret c =
      let hook : Webhook = record {
        id = id;
        url = url;
        event_types = types_of event_types;
        secret = secret;
        active = true;
        created_at = at;
      } in
      elim (mongo.insert_one same_webhook hook c) [
        | none ↦ (err Error.duplicate_key, c)
        | some c' ↦ (ok (shown hook, has_secret secret), c')
      ]

  -- WebhookRegistry.list
  unfoldable pub list_webhooks : mongo.Coll Webhook → List WebhookView
  unfolding shown
  list_webhooks c = map shown (mongo.find (λ h. true) c)

  -- `not allowed or event_type in allowed`
  unfoldable pub allows_event : String → List String → Bool
  allows_event event_type [] = true
  allows_event event_type (t ∷ ts) = any (str_eq event_type) (t ∷ ts)

  unfoldable pub keep_allowed : String → List Webhook → List Webhook
  unfolding allows_event
  keep_allowed event_type [] = []
  keep_allowed event_type (h ∷ hs) =
      let rest = keep_allowed event_type hs in
      if allows_event event_type h.event_types then h ∷ rest else rest

  -- WebhookRegistry.active_for
  unfoldable pub active_for : String → mongo.Coll Webhook → List Webhook
  active_for event_type c = keep_allowed event_type (mongo.find (λ h. h.active) c)

-- one request to a hook
pub record HookRequest : Type 0 where
  pub url : String
  pub body : String
  pub headers : Dict String

-- hmac.new(secret, body, sha256).hexdigest()
unfoldable pub signature : (String → String → String) → Option String → String → Dict String
signature hmac none body = []
signature hmac (some secret) body =
    ("X-CMDBoss-Signature", text_append "sha256=" (hmac secret body)) ∷ []

unfoldable pub hook_request : (String → String → String) → String → String → Webhook → HookRequest
unfolding secret_of signature
hook_request hmac event_type body h = record {
  url = h.url;
  body = body;
  headers =
      ("Content-Type", "application/json")
      ∷ ("X-CMDBoss-Event", event_type)
      ∷ signature hmac (secret_of h.secret) body;
}

-- what `_deliver` did: its requests, its waits in tenths of a second, and which metric it counted
pub record Delivery : Type 0 where
  pub sends : ℕ
  pub waits : List ℕ
  pub delivered : Bool
  pub dropped : Bool

-- `200 <= status < 300`, where the sender did not raise
unfoldable pub is_accepted : Option ℕ → Bool
is_accepted none = false
is_accepted (some status) = leb 200 status && ltb status 300

abbrev pub nothing_sent : Delivery
nothing_sent = record { sends = 0; waits = []; delivered = false; dropped = false }

-- an attempt that failed and was waited after
abbrev pub retried : ℕ → Delivery → Delivery
retried attempt d = record d { sends = d.sends + 1; waits = min (2 ^ attempt) 20 ∷ d.waits }

-- the loop of `_deliver` over `range(max_attempts)`, of which `rounds` are left
unfoldable pub attempts : (ℕ → Option ℕ) → ℕ → ℕ → ℕ → Delivery
unfolding is_accepted
attempts outcome max_attempts attempt zero = nothing_sent
attempts outcome max_attempts attempt (suc rounds) =
    let rest = attempts outcome max_attempts (attempt + 1) rounds in
    if is_accepted (outcome attempt)
    then record { sends = 1; waits = []; delivered = true; dropped = false }
    else if leb max_attempts (attempt + 1)
    then record { sends = 1; waits = []; delivered = false; dropped = true }
    else retried attempt rest

-- `_deliver`
unfoldable pub deliver_hook : (ℕ → Option ℕ) → ℕ → Delivery
deliver_hook outcome max_attempts = attempts outcome max_attempts 0 max_attempts

module _ (mongo : Driver) where
  deliver_each :
      (HookRequest → ℕ → Option ℕ)
      → (String → String → String)
      → ℕ
      → String
      → String
      → List Webhook
      → List (HookRequest × Delivery)
  deliver_each sender hmac max_attempts event_type body [] = []
  deliver_each sender hmac max_attempts event_type body (h ∷ hs) =
      let q = hook_request hmac event_type body h in
      (q, deliver_hook (sender q) max_attempts)
      ∷ deliver_each sender hmac max_attempts event_type body hs

  -- WebhookSubscriber.handle: the requests in their order, and what became of each
  unfoldable pub handle :
      (HookRequest → ℕ → Option ℕ)
      → (String → String → String)
      → (Event → String)
      → ℕ
      → Event
      → mongo.Coll Webhook
      → List (HookRequest × Delivery)
  unfolding deliver_each
  handle sender hmac body max_attempts e c =
      deliver_each sender hmac max_attempts e.type (body e) (active_for mongo e.type c)

-- ===== src/Http/Middleware.antt =====
-- app.py: the middleware around every request, with `set_request_id` of observability.py. Its
-- metrics and log lines are left out. Headers are keyed by their lower-case names, as in Starlette.
use cmdboss.Prelude.{
  ◌≡◌, refl, ℕ, String, Bool, true, false, Option, none, some, [], ◌∷◌, Dict, lookup, insert,
  str_eq, ltb, if◌then◌else◌,
}
use cmdboss.Value.{Number}
use cmdboss.Text.{strip}
use cmdboss.Text.Numerals.{parse_int}
use cmdboss.Errors.Result.{Result, ok, err, Exec}

pub record AppSettings : Type 0 where
  pub max_body_bytes : ℕ
  pub security_headers_enabled : Bool
  pub hsts_enabled : Bool

-- what a route answers, with a body of any kind; `too_large` is the middleware's own
pub data Content (B : Type 0) : Type 0 where
  of_route : B → Content B
  too_large : ℕ → Content B

pub record HttpResponse (B : Type 0) : Type 0 where
  pub status : ℕ
  pub headers : Dict String
  pub content : Content B

-- response.headers.setdefault(key, value)
unfoldable pub set_default : String → String → Dict String → Dict String
set_default key value headers = elim (lookup key headers) [
  | none ↦ insert key value headers
  | some _ ↦ headers
]

abbrev pub add_hsts : Bool → Dict String → Dict String
add_hsts false h = h
add_hsts true h = set_default "strict-transport-security" "max-age=31536000; includeSubDomains" h

-- `_apply_security_headers`
unfoldable pub apply_security_headers : AppSettings → Dict String → Dict String
unfolding set_default
apply_security_headers settings h =
    if settings.security_headers_enabled
    then add_hsts settings.hsts_enabled (
        set_default "referrer-policy" "no-referrer"
          (set_default "x-frame-options" "DENY" (set_default "x-content-type-options" "nosniff" h)))
    else h

-- set_request_id: the id that the client sent, or a fresh one
unfoldable pub set_request_id : String → Option String → String
set_request_id fresh none = fresh
set_request_id fresh (some rid) = if str_eq rid "" then fresh else rid

abbrev pub above_limit : ℕ → Option Number → Bool
above_limit most none = false
above_limit most (some (Number.above n)) = ltb most n
above_limit most (some (Number.below n)) = false

-- int(content_length) > max_body_bytes, and false where there is no such integer
unfoldable pub is_oversized : ℕ → Option String → Bool
is_oversized most none = false
is_oversized most (some text) = above_limit most (parse_int text)

module _ {B : Type 0} where
  -- the two changes to the headers of every response
  unfoldable pub finished : AppSettings → String → HttpResponse B → HttpResponse B
  unfolding apply_security_headers
  finished settings rid x = record x {
    headers = apply_security_headers settings (insert "x-request-id" rid x.headers);
  }

module _ {S B : Type 0} where
  after_call : AppSettings → String → Result (HttpResponse B) × S → Result (HttpResponse B) × S
  after_call settings rid (ok x, s) = (ok (finished settings rid x), s)
  after_call settings rid (err e, s) = (err e, s)

  -- `_request_context`, where `call_next` is given the id that it finds in the context
  unfoldable pub request_context :
      AppSettings
      → String
      → Option String
      → Option String
      → (String → Exec S (HttpResponse B))
      → Exec S (HttpResponse B)
  unfolding after_call
  request_context settings fresh x_request_id content_length call_next s =
      let rid = set_request_id fresh x_request_id in
      if is_oversized settings.max_body_bytes content_length
      then (
        ok (
            finished settings rid (record {
              status = 413;
              headers = [];
              content = Content.too_large settings.max_body_bytes;
            })),
        s,
      )
      else after_call settings rid (call_next rid s)

security_headers :
    (is_oversized 10 (some "11") ≡ true)
    × (is_oversized 10 (some "many") ≡ false)
    × (lookup "x-frame-options" (
          apply_security_headers
            (record { max_body_bytes = 10; security_headers_enabled = true; hsts_enabled = false })
            (("x-frame-options", "SAMEORIGIN") ∷ []))
        ≡ some "SAMEORIGIN")
unfolding is_oversized parse_int strip apply_security_headers set_default insert lookup
security_headers = (refl, refl, refl)

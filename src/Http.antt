-- ===== src/Http.antt =====
-- routers/ci.py: the routes of the CIs over CIRepository, with the exception handlers of errors.py.
-- What FastAPI refuses before it calls a route is left out, as is the Retry-After header.
pub mod Revisions
pub mod Writes
pub mod Atomic
pub mod Graph
pub mod System
pub mod Discovery
pub mod Middleware
use Prim.Native.Char.{code}
use cmdboss.Prelude.{
  ◌≡◌, refl, ℕ, String, Bool, true, false, Option, none, some, List, [], ◌∷◌, Dict, str_eq, ◌==◌,
  if◌then◌else◌,
}
use cmdboss.Value.{Value, Number}
use cmdboss.Text.{strip}
use cmdboss.Text.Numerals.{print_nat, parse_int}
use cmdboss.Errors.{Error, error_code, status_code}
use cmdboss.Errors.Result.{Result, ok, err, Exec, pure, lift, ◌>>=◌}
use cmdboss.Documents.{Item}
use cmdboss.Driver.{Driver}
use cmdboss.Audit.{AuditDoc}
use cmdboss.Cursor.{Codec}
use cmdboss.RateLimit.{RateLimiter}
use cmdboss.Security.{Principal, require}
use cmdboss.Store.{Store, Config, Readings, Caller}
use cmdboss.Repository
use cmdboss.Repository.Guard.{Guard}
use cmdboss.Repository.Create.{create}
use cmdboss.Repository.Update.{update}
use cmdboss.Repository.Delete.{delete}
use cmdboss.Repository.Discovery.{history}
use cmdboss.Repository.Listing.{Comparison, Literals, ListQuery, Page}
use cmdboss.Repository.Listing

pub data Body : Type 0 where
  item : Item → Body
  page : Page → Body
  audit_entries : List AuditDoc → Body
  -- the code of an error envelope
  problem : String → Body
  nothing : Body

pub record Response : Type 0 where
  pub status : ℕ
  pub etag : Option String
  pub body : Body

-- text.strip('"')
unfoldable pub lstrip_quotes : String → String
lstrip_quotes String.[] = String.[]
lstrip_quotes (String.◌∷◌ c s) = if code c == 34 then lstrip_quotes s else String.◌∷◌ c s

unfoldable pub all_quotes : String → Bool
all_quotes String.[] = true
all_quotes (String.◌∷◌ c s) = if code c == 34 then all_quotes s else false

unfoldable pub rstrip_quotes : String → String
unfolding all_quotes
rstrip_quotes String.[] = String.[]
rstrip_quotes (String.◌∷◌ c s) =
    if all_quotes (String.◌∷◌ c s) then String.[] else String.◌∷◌ c (rstrip_quotes s)

abbrev pub then_quote : String → String
then_quote String.[] = "\""
then_quote (String.◌∷◌ c s) = String.◌∷◌ c (then_quote s)

-- f'"{revision}"'
unfoldable pub etag_of : ℕ → String
etag_of revision = String.◌∷◌ "\"" (then_quote (print_nat revision))

-- `_set_etag`: an item always has its revision
unfoldable pub with_etag : ℕ → Item → Response
with_etag status x = record {
  status = status;
  etag = some (etag_of x.meta.revision);
  body = Body.item x;
}

abbrev pub or_no_integer : Option Number → Result (Option Number)
or_no_integer none = err Error.bad_request
or_no_integer (some n) = ok (some n)

abbrev pub revision_of : String → Result (Option Number)
revision_of cleaned = if str_eq cleaned "*" then ok none else or_no_integer (parse_int cleaned)

abbrev pub no_if_match : Bool → Result (Option Number)
no_if_match true = err Error.precondition_required
no_if_match false = ok none

-- `_parse_if_match`
unfoldable pub parse_if_match : Bool → Option String → Result (Option Number)
unfolding lstrip_quotes rstrip_quotes
parse_if_match required none = no_if_match required
parse_if_match required (some value) =
    if str_eq value ""
    then no_if_match required
    else revision_of (rstrip_quotes (lstrip_quotes (strip value)))

-- what authenticates a request, and the clock of the rate limiter
pub record Gate : Type 0 where
  pub enabled : Bool
  pub now : ℕ
  pub who : Option Principal

-- the exception handlers
unfoldable pub problem_of : Error → Response
problem_of e = record { status = status_code e; etag = none; body = Body.problem (error_code e) }

module _ {S : Type 0} where
  unfoldable pub answer : Result Response × S → Response × S
  unfolding problem_of
  answer (ok x, s) = (x, s)
  answer (err e, s) = (problem_of e, s)

  pass : Result Principal → (Principal → Exec S Response) → Exec S Response
  pass (err e) f s = (err e, s)
  pass (ok p) f s = f p s

  -- Depends(require(scope)), and then the route
  unfoldable pub guarded :
      List String
      → Gate
      → Option RateLimiter
      → (Principal → Exec S Response)
      → S
      → Response × (S × Option RateLimiter)
  unfolding pass answer
  guarded scopes gate limiter f s =
      let (who, limiter') = require scopes gate.enabled gate.now gate.who limiter in
      let (x, s') = answer (pass who f s) in (x, (s', limiter'))

abbrev pub no_content : Response
no_content = record { status = 204; etag = none; body = Body.nothing }

abbrev pub ci_read : List String
ci_read = "ci:read" ∷ []

abbrev pub ci_write : List String
ci_write = "ci:write" ∷ []

-- the caller that a route passes on: the principal's name and the request's id
abbrev pub caller_of : Option ℕ → Principal → Caller
caller_of request_id p = record { actor = p.name; request_id = request_id }

module _ (mongo : Driver) (cfg : Config mongo) where
  unfoldable pub create_ci :
      Readings
      → Option ℕ
      → String
      → Dict Value
      → Option String
      → Principal
      → Exec (Store mongo) Response
  create_ci r rid type_name payload key p = do
    doc ← create mongo cfg r type_name payload (caller_of rid p) key
    pure (with_etag 201 doc)

  unfoldable pub get_ci : Readings → String → String → Principal → Exec (Store mongo) Response
  get_ci r type_name item_id p = do
    doc ← Repository.get mongo cfg r type_name item_id
    pure (with_etag 200 doc)

  unfoldable pub list_ci :
      (codec : Codec cfg.iso)
      → Comparison
      → Literals
      → Readings
      → String
      → ListQuery
      → Principal
      → Exec (Store mongo) Response
  list_ci codec order lit r type_name x p = do
    found ← Listing.list mongo cfg codec order lit r type_name x
    pure (record { status = 200; etag = none; body = Body.page found })

  -- replace_ci, and patch_ci under `partial`
  unfoldable pub write_ci :
      Bool
      → Readings
      → Option ℕ
      → String
      → String
      → Dict Value
      → Option String
      → Principal
      → Exec (Store mongo) Response
  write_ci partial r rid type_name item_id payload if_match p = do
    expected ← lift (parse_if_match true if_match)
    doc ← update mongo cfg r type_name item_id payload expected partial (caller_of rid p)
    pure (with_etag 200 doc)

  unfoldable pub delete_ci_route :
      Option (Guard mongo)
      → Readings
      → Option ℕ
      → String
      → String
      → Option String
      → Bool
      → Principal
      → Exec (Store mongo) Response
  delete_ci_route g r rid type_name item_id if_match detach p = do
    expected ← lift (parse_if_match false if_match)
    _ ← delete mongo cfg g r type_name item_id expected (caller_of rid p) detach
    pure no_content

  unfoldable pub ci_history :
      Readings → String → String → ℕ → Principal → Exec (Store mongo) Response
  ci_history r type_name item_id limit p = do
    entries ← history mongo cfg r type_name item_id limit
    pure (record { status = 200; etag = none; body = Body.audit_entries entries })

headers :
    (parse_if_match true (some " \"12\" ") ≡ ok (some (Number.above 12)))
    × (parse_if_match true (some "*") ≡ ok none)
    × (parse_if_match true (some "W/\"3\"") ≡ err Error.bad_request)
    × (parse_if_match true (some "") ≡ err Error.precondition_required)
    × (etag_of 12 ≡ "\"12\"")
unfolding parse_if_match strip parse_int etag_of print_nat
headers = (refl, refl, refl, refl, refl)

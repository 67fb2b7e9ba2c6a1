-- ===== src/Tests/Access.antt =====
-- Keys and scopes at work.
use cmdboss.Prelude.{
  ◌≡◌, ◌≢◌, ◌⊎◌, refl, String, true, false, none, some, List, [], ◌∷◌, Memᴰ, first, select, any,
  update_first, eq_iff, lookup, insert,
}
use cmdboss.Errors.Result.{Result, ok}
use cmdboss.Driver.InMemory.{in_memory}
use cmdboss.Outbox.{text_take}
use cmdboss.Security.{
  Principal, KeyDoc, is_admin, has_scope, deduplicated, known_scopes, new_key, is_expired, is_due,
  principal_of, touch_key, authenticate, create_api_key, revoke_api_key, missing_scopes,
  get_principal, require,
}
use cmdboss.Security.Keys.{AreDistinctKeys, authenticate-create, authenticate-revoke}
use cmdboss.Security.Access.{require_ok}
use cmdboss.RateLimit.{RateLimiter, init, check}

abbrev plain : String → String
plain raw = raw

abbrev secret : String
secret = "abc"

abbrev asked : List String
asked = "ci:read" ∷ "ci:read" ∷ []

abbrev key : KeyDoc
key = new_key 1 5 "bot" secret secret ("ci:read" ∷ []) (some 90)

abbrev made : Result KeyDoc × List KeyDoc
made = create_api_key in_memory plain 1 5 secret "bot" asked (some 90) []

made_ok : made.0 ≡ ok key
unfolding create_api_key deduplicated known_scopes select any text_take
made_ok = refl

secret_given : secret ≢ ""
secret_given h = let k = (eq_iff secret "").1 h in cc

in_time : is_expired 10 (some 90) ≡ false
unfolding is_expired
in_time = refl

authenticate-create_example :
    (authenticate in_memory plain 60 10 11 secret made.1).0
    ≡ some (record { id = in_memory.id_text 1; name = "bot"; scopes = deduplicated asked })
authenticate-create_example =
    authenticate-create in_memory plain 60 10 11 1 5 secret "bot" asked (some 90) [] key
      secret_given in_time made_ok

abbrev other_key : KeyDoc
other_key = new_key 2 5 "cli" "xyz" "xyz" ("admin" ∷ []) none

abbrev two_keys : List KeyDoc
two_keys = key ∷ other_key ∷ []

distinct_keys : AreDistinctKeys in_memory plain two_keys
unfolding any
distinct_keys = (refl, (refl, tt))

abbrev after_revoke : Result (Unit {0}) × List KeyDoc
after_revoke = revoke_api_key in_memory plain 20 (in_memory.id_text 1) two_keys

revoked_ok : after_revoke.0 ≡ ok tt
unfolding revoke_api_key first
revoked_ok = refl

abbrev cli : Principal
cli = record { id = in_memory.id_text 2; name = "cli"; scopes = "admin" ∷ [] }

cli_in : (authenticate in_memory plain 60 30 31 "xyz" after_revoke.1).0 ≡ some cli
unfolding revoke_api_key first authenticate update_first is_expired is_due principal_of touch_key
cli_in = refl

authenticate-revoke_example : cli.id ≢ in_memory.id_text 1
authenticate-revoke_example =
    authenticate-revoke in_memory plain 60 30 31 20 1 (in_memory.id_text 1) "xyz" two_keys cli
      distinct_keys refl revoked_ok cli_in

abbrev limiter : RateLimiter
limiter = init 2 10 1000

let_through : (require ("ci:write" ∷ []) true 3 (some cli) (some limiter)).0 ≡ ok cli
unfolding require get_principal missing_scopes has_scope is_admin select any check lookup insert
let_through = refl

require_ok_example :
    ((get_principal true 3 (some cli) (some limiter)).0 ≡ ok cli)
    × (has_scope cli "ci:write" ≡ true)
    × ((true ≡ false) ⊎ (some cli ≡ some cli))
require_ok_example =
    require_ok ("ci:write" ∷ []) true 3 (some cli) (some limiter) cli "ci:write" let_through
      (Memᴰ.head refl)

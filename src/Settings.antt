-- ===== src/Settings.antt =====
-- cmdboss/config.py: the two validators of Settings, and which values of config.json `get_settings`
-- forwards. The reading of the environment by pydantic-settings and json.loads are parameters.
use cmdboss.Prelude.{
  ◌≡◌, refl, String, Bool, false, Option, none, some, List, [], ◌∷◌, any, Dict, lookup, str_eq,
  ◌==◌, if◌then◌else◌,
}
use Prim.Native.Char.{Char, code}
use Prim.Native.String.{◌++◌ as text_append}
use cmdboss.Value.{Value}
use cmdboss.Text.{upper, strip}

-- `_normalise_log_level`, none for the ValueError
unfoldable pub normalise_log_level : String → Option String
unfolding upper
normalise_log_level v =
    let level = upper v in
    if any (str_eq level) ("DEBUG" ∷ "INFO" ∷ "WARNING" ∷ "ERROR" ∷ "CRITICAL" ∷ [])
    then some level
    else none

-- a character before the first of the parts
abbrev pub before_first : Char → List String → List String
before_first c [] = String.◌∷◌ c String.[] ∷ []
before_first c (p ∷ ps) = String.◌∷◌ c p ∷ ps

-- text.split(",")
unfoldable pub split_commas : String → List String
split_commas String.[] = "" ∷ []
split_commas (String.◌∷◌ c s) =
    let rest = split_commas s in if code c == 44 then "" ∷ rest else before_first c rest

-- [o.strip() for o in parts if o.strip()]
unfoldable pub stripped_parts : List String → List String
stripped_parts [] = []
stripped_parts (p ∷ ps) =
    let rest = stripped_parts ps in let o = strip p in if str_eq o "" then rest else o ∷ rest

abbrev pub is_json_list : String → Bool
is_json_list String.[] = false
is_json_list (String.◌∷◌ c s) = code c == 91

-- `_split_origins` of a text; any other value passes as it is
unfoldable pub split_origins : (String → Option (List String)) → String → Option (List String)
unfolding split_commas stripped_parts
split_origins loads v =
    let stripped = strip v in
    if is_json_list stripped then loads stripped else some (stripped_parts (split_commas stripped))

-- a key of config.json that is not an annotation
abbrev pub is_annotation : String → Bool
is_annotation String.[] = false
is_annotation (String.◌∷◌ c s) = code c == 95

-- `_load_legacy_config`, on what the file holds
unfoldable pub load_legacy_config : Dict Value → Dict Value
load_legacy_config [] = []
load_legacy_config ((k, v) ∷ raw) =
    let rest = load_legacy_config raw in if is_annotation k then rest else (k, v) ∷ rest

abbrev pub legacy_keys : List String
legacy_keys = "mongo_uri" ∷ "db_name" ∷ "host" ∷ "port" ∷ "log_level" ∷ "cors_origins" ∷ []

-- f"CMDBOSS_{key.upper()}"
unfoldable pub env_name : String → String
env_name key = text_append "CMDBOSS_" (upper key)

-- the loop of `get_settings`, with the names that the environment has
unfoldable pub forwarded : (String → Bool) → Dict Value → List String → Dict Value
unfolding env_name
forwarded in_environ legacy [] = []
forwarded in_environ legacy (key ∷ keys) =
    let rest = forwarded in_environ legacy keys in
    elim (lookup key legacy) [
      | none ↦ rest
      | some v ↦ if in_environ (env_name key) then rest else (key, v) ∷ rest
    ]

settings_tests :
    (normalise_log_level "warning" ≡ some "WARNING")
    × (normalise_log_level "loud" ≡ none)
    × (split_origins (λ s. none) " http://a, ,http://b " ≡ some ("http://a" ∷ "http://b" ∷ []))
    × (forwarded
          (str_eq "CMDBOSS_HOST")
          (("host", Value.text "a") ∷ ("db_name", Value.text "b") ∷ [])
          legacy_keys
        ≡ ("db_name", Value.text "b") ∷ [])
unfolding normalise_log_level any split_origins strip forwarded lookup upper env_name
settings_tests = (refl, refl, refl, refl)

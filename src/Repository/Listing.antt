-- ===== src/Repository/Listing.antt =====
-- `list` of CIRepository in cmdboss/repository.py: filters, sorting, and pages by offset or cursor.
-- The router lets no negative limit or offset through. MongoDB's order on values, and `int` and
-- `float` on texts (a `Number` counts a unit that is not fixed), are parameters.
pub mod Keyset
pub mod Walk
use Prim.Native.Char.{code}
use cmdboss.Prelude.{
  ℕ, suc, ◌+◌, String, Bool, true, false, ◌&&◌, ◌||◌, not, ◌≡◌, ◌⊎◌, Option, none, some, List, [],
  ◌∷◌, map, length, min, max, any, Dict, lookup, str_eq, ◌==◌, leb, ltb, if◌then◌else◌,
}
use cmdboss.Text.{lower}
use cmdboss.Value.{Value, Number}
use cmdboss.Errors.{Error}
use cmdboss.Errors.Result.{Result, ok, err, Exec, ◌>>=◌}
use cmdboss.Documents.{CiDoc, Item, serialize}
use cmdboss.Driver.{Driver}
use cmdboss.Schema.{FieldType, FieldSpec, Checked, valid, invalid, coherent}
use cmdboss.Audit.{value_at}
use cmdboss.Registry.{TypeDoc}
use cmdboss.Cursor.{Codec, encode_cursor, decode_cursor}
use cmdboss.Store.{Store, Config, Readings, spelling}
use cmdboss.Repository.{type_doc}

-- How MongoDB compares values: `le` is the order of a sort, `eq` the test of {field: value}, and
-- `gt` and `lt` those of `$gt` and `$lt`, which match values of the same class only.
pub record Comparison : Type 0 where
  pub le : Value → Value → Bool
  pub eq : Value → Value → Bool
  pub gt : Value → Value → Bool
  pub lt : Value → Value → Bool
  pub comparable : Value → Value → Bool
  pub le_total : (a b : Value) → (le a b ≡ true) ⊎ (le b a ≡ true)
  pub le_trans : (a b c : Value) → le a b ≡ true → le b c ≡ true → le a c ≡ true
  pub eq_lem : (a b : Value) → comparable a b ≡ true → eq a b ≡ (le a b && le b a)
  pub gt_lem : (a b : Value) → comparable a b ≡ true → gt a b ≡ not (le a b)
  pub lt_lem : (a b : Value) → comparable a b ≡ true → lt a b ≡ not (le b a)

-- `int(raw)` and `float(raw)`, none for a ValueError
pub record Literals : Type 0 where
  pub int_of : String → Option Number
  pub float_of : String → Option Number

-- the fields that a list is sorted by; a field of the type's own is missing or null alike
pub data SortField : Type 0 where
  created_at updated_at : SortField
  own : String → SortField

pub record SortKey : Type 0 where
  pub field : SortField
  pub descending : Bool

-- what a call of `list` is given
pub record ListQuery : Type 0 where
  pub limit : Option ℕ
  pub offset : ℕ
  pub sort : Option String
  pub cursor : Option String
  pub filters : Dict String
  pub include_total : Bool

-- `items` and `paging`
pub record Page : Type 0 where
  pub items : List Item
  pub limit : ℕ
  pub returned : ℕ
  pub cursor : Option String
  pub offset : Option ℕ
  pub next_offset : Option ℕ
  pub next_cursor : Option String
  pub total : Option ℕ

abbrev pub and_then {ℓ κ} : {A : Type ℓ} {B : Type κ} → Result A → (A → Result B) → Result B
and_then (ok a) f = f a
and_then (err e) f = err e

-- `_get_path(doc, sort_field)`
unfoldable pub sort_value : SortField → CiDoc → Value
sort_value SortField.created_at d = Value.datetime d.meta.created_at
sort_value SortField.updated_at d = Value.datetime d.meta.updated_at
sort_value (SortField.own k) d = value_at k d.fields

abbrev pub or_bad_literal : Option Number → Result Value
or_bad_literal none = err Error.bad_request
or_bad_literal (some n) = ok (Value.number n)

-- `_coerce_filter_value`
unfoldable pub coerce_filter_value : Literals → FieldType → String → Result Value
coerce_filter_value lit FieldType.integer raw = or_bad_literal (lit.int_of raw)
coerce_filter_value lit FieldType.number raw = or_bad_literal (lit.float_of raw)
coerce_filter_value lit FieldType.boolean raw =
    ok (Value.boolean (any (str_eq (lower raw)) ("1" ∷ "true" ∷ "yes" ∷ [])))
coerce_filter_value lit _ raw = ok (Value.text raw)

abbrev pub reserved_query : List String
reserved_query = "limit" ∷ "offset" ∷ "sort" ∷ "include_total" ∷ "cursor" ∷ []

-- `FieldSpec(**fields[key])` of a stored specification; its ValidationError is pydantic's
unfoldable pub filter_value : (String → Bool) → Literals → Option FieldSpec → String → Result Value
filter_value compiles lit none raw = err Error.bad_request
filter_value compiles lit (some spec) raw = elim (coherent compiles spec) [
  | invalid flaw ↦ err Error.invalid_model
  | valid s ↦ coerce_filter_value lit s.type raw
]

-- `filter_query`, a value for each field
unfoldable pub filter_query :
    (String → Bool) → Literals → Dict FieldSpec → Dict String → Result (Dict Value)
filter_query compiles lit fields [] = ok []
filter_query compiles lit fields ((key, raw) ∷ filters) =
    let rest = filter_query compiles lit fields filters in
    if any (str_eq key) reserved_query
    then rest
    else and_then (filter_value compiles lit (lookup key fields) raw)
        (λ v. and_then rest (λ vs. ok ((key, v) ∷ vs)))

abbrev pub known_field : Option FieldSpec → SortKey → Result SortKey
known_field none k = err Error.bad_request
known_field (some _) k = ok k

-- `_parse_sort` after the sign
unfoldable pub sort_field : Dict FieldSpec → Bool → String → Result SortKey
sort_field fields descending field =
    if str_eq field "created_at"
    then ok (record { field = SortField.created_at; descending = descending })
    else if str_eq field "updated_at"
    then ok (record { field = SortField.updated_at; descending = descending })
    else known_field (lookup field fields)
        (record { field = SortField.own field; descending = descending })

unfoldable pub parse_sort : Dict FieldSpec → Option String → Result SortKey
unfolding sort_field
parse_sort fields none = ok (record { field = SortField.updated_at; descending = true })
parse_sort fields (some String.[]) = ok (record { field = SortField.updated_at; descending = true })
parse_sort fields (some (String.◌∷◌ c field)) =
    if code c == 45
    then sort_field fields true field
    else sort_field fields false (String.◌∷◌ c field)

-- `limit or default_page_size`, then between 1 and max_page_size
unfoldable pub limit_of : ℕ → ℕ → Option ℕ → ℕ
limit_of default most none = max 1 (min default most)
limit_of default most (some n) = max 1 (min (if n == 0 then default else n) most)

abbrev pub last {ℓ} : {A : Type ℓ} → List A → Option A
last [] = none
last (x ∷ []) = some x
last (x ∷ y ∷ xs) = last (y ∷ xs)

module _ (order : Comparison) where
  -- the order of [(sort_field, ASCENDING), ("_id", ASCENDING)]
  unfoldable pub comes_first : SortField → CiDoc → CiDoc → Bool
  comes_first f a b =
      if order.le (sort_value f a) (sort_value f b)
      then if order.le (sort_value f b) (sort_value f a) then leb a.id b.id else true
      else false

  -- `.sort([(sort_field, sort_dir), ("_id", sort_dir)])`
  unfoldable pub sorted_by : SortKey → CiDoc → CiDoc → Bool
  sorted_by k a b = if k.descending then comes_first k.field b a else comes_first k.field a b

  -- `keyset`
  unfoldable pub keyset : SortKey → Value → ℕ → CiDoc → Bool
  keyset k v id d =
      let x = sort_value k.field d in
      if k.descending
      then order.lt x v || (order.eq x v && ltb d.id id)
      else order.gt x v || (order.eq x v && ltb id d.id)

  -- a document passes `filter_query`
  unfoldable pub passes_filters : Dict Value → CiDoc → Bool
  passes_filters [] d = true
  passes_filters ((key, v) ∷ q) d = order.eq (value_at key d.fields) v && passes_filters q d

module _ (mongo : Driver) (cfg : Config mongo) (codec : Codec cfg.iso) (order : Comparison) where
  -- `find` with its sort, skip and limit
  unfoldable pub find_page :
      SortKey → Dict Value → Option (Value × ℕ) → ℕ → ℕ → mongo.Coll CiDoc → List CiDoc
  find_page k q none offset limit c =
      mongo.find_sorted (sorted_by order k) offset limit (passes_filters order q) c
  find_page k q (some (v, id)) offset limit c =
      mongo.find_sorted (sorted_by order k) 0 limit
        (λ d. passes_filters order q d && keyset order k v id d) c

  -- `if full_page and raw_docs`
  unfoldable pub next_cursor : SortKey → ℕ → List CiDoc → Result (Option String)
  next_cursor k limit docs =
      if length docs == limit
      then elim (last docs) [
        | none ↦ ok none
        | some d ↦
            and_then (encode_cursor mongo cfg.iso codec (sort_value k.field d) d.id)
              (λ t. ok (some t))
      ]
      else ok none

  -- the offset and the next one, where no cursor was given
  abbrev pub offsets : Option String → ℕ → ℕ → Bool → Option ℕ × Option ℕ
  offsets (some t) offset limit full = (none, none)
  offsets none offset limit full = (some offset, if full then some (offset + limit) else none)

  unfoldable pub list_page :
      SortKey → Dict Value → ℕ → ListQuery → Store mongo → String → List CiDoc → Result Page
  list_page k q limit x s type_name docs =
      let (offset, next_offset) = offsets x.cursor x.offset limit (length docs == limit) in
      and_then (next_cursor k limit docs) λ token. ok (record {
        items = map (serialize (spelling mongo cfg)) docs;
        limit = limit;
        returned = length docs;
        cursor = x.cursor;
        offset = offset;
        next_offset = next_offset;
        next_cursor = token;
        total =
            if x.include_total
            then some (mongo.count_documents (passes_filters order q) (s.cis type_name))
            else none;
      })

  -- `decode_cursor`, if a cursor was given
  abbrev pub position : ℕ → Option String → Result (Option (Value × ℕ))
  position fresh none = ok none
  position fresh (some token) =
      and_then (decode_cursor mongo cfg.iso codec fresh token) (λ p. ok (some p))

  -- `list` after the lookup of the type
  unfoldable pub list_docs :
      Literals → Readings → TypeDoc → String → ListQuery → Store mongo → Result Page
  list_docs lit r t type_name x s =
      let limit = limit_of cfg.default_page_size cfg.max_page_size x.limit in
      and_then (filter_query cfg.compiles lit t.fields x.filters) λ q.
        and_then (parse_sort t.fields x.sort) λ k. and_then (position r.oid x.cursor) λ at.
          list_page k q limit x s type_name (find_page k q at x.offset limit (s.cis type_name))

  -- `list`
  unfoldable pub list : Literals → Readings → String → ListQuery → Exec (Store mongo) Page
  list lit r type_name x = do
    t ← type_doc mongo cfg r type_name
    (λ s. (list_docs lit r t type_name x s, s))

-- ===== src/Schema.antt =====
-- cmdboss/schema.py: the declarative field and type specifications, their validators, and the field
-- definitions that the compiler hands to pydantic's create_model. A validator's ValueError surfaces
-- as a validation error; which of the checks failed is kept as a `Flaw`.
pub mod Compile
pub mod Coherence
pub mod Constraints
use cmdboss.Prelude.{
  ℕ, String, Bool, true, false, ◌&&◌, ◌||◌, not, Option, none, some, List, [], ◌∷◌, map, any, Dict,
  str_eq, ltb, if◌then◌else◌,
}
use cmdboss.Text.{lower, strip, matches_name, matches_field}
use cmdboss.Value.{Value, Number, number_lt}

-- FieldType, and ScalarItemType
pub data FieldType : Type 0 where
  string integer number boolean datetime array object reference : FieldType

pub data ScalarItemType : Type 0 where
  string integer number boolean datetime reference : ScalarItemType

pub record FieldSpec : Type 0 where
  pub type : FieldType
  pub required : Bool
  pub description : Option String
  pub default : Option Value
  pub min_length : Option ℕ
  pub max_length : Option ℕ
  pub pattern : Option String
  pub minimum : Option Number
  pub maximum : Option Number
  pub enum : Option (List Value)
  pub items : Option ScalarItemType
  pub min_items : Option ℕ
  pub max_items : Option ℕ
  pub ref_type : Option String

pub data Flaw : Type 0 where
  bad_pattern no_items stray_items stray_enum stray_pattern no_ref_type : Flaw
  range_order length_order items_order required_default : Flaw
  bad_name no_fields bad_field_name reserved_field keyword_field unknown_index_field : Flaw

-- A validator: the value that it returns, or the flaw that it raises.
pub data Checked {ℓ} (A : Type ℓ) : Type ℓ where
  valid : A → Checked A
  invalid : Flaw → Checked A

infixl 5 ◌>>=◌ ◌>>◌
abbrev pub ◌>>=◌ {ℓ κ} : {A : Type ℓ} {B : Type κ} → Checked A → (A → Checked B) → Checked B
valid a >>= f = f a
invalid e >>= f = invalid e

abbrev pub ◌>>◌ {ℓ} : {B : Type ℓ} → Checked (Unit {0}) → Checked B → Checked B
m >> k = m >>= λ _. k

-- if test: raise ValueError(flaw)
abbrev pub refuse : Bool → Flaw → Checked (Unit {0})
refuse true flaw = invalid flaw
refuse false flaw = valid tt

abbrev pub is_some {ℓ} : {A : Type ℓ} → Option A → Bool
is_some none = false
is_some (some a) = true

-- a value that is absent or the empty text
abbrev pub is_falsy : Option String → Bool
is_falsy none = true
is_falsy (some s) = str_eq s ""

-- both bounds are given and the first is above the second
abbrev pub exceeds {ℓ} : {A : Type ℓ} → (A → A → Bool) → Option A → Option A → Bool
exceeds lt none hi = false
exceeds lt (some a) none = false
exceeds lt (some a) (some b) = lt b a

abbrev pub is_array : FieldType → Bool
is_array FieldType.array = true
is_array _ = false

abbrev pub is_reference : FieldType → Bool
is_reference FieldType.reference = true
is_reference _ = false

-- type in ("string", "integer", "number")
abbrev pub takes_enum : FieldType → Bool
takes_enum FieldType.string = true
takes_enum FieldType.integer = true
takes_enum FieldType.number = true
takes_enum _ = false

-- type in ("string", "reference")
abbrev pub takes_pattern : FieldType → Bool
takes_pattern FieldType.string = true
takes_pattern FieldType.reference = true
takes_pattern _ = false

-- type in ("integer", "number")
abbrev pub takes_range : FieldType → Bool
takes_range FieldType.integer = true
takes_range FieldType.number = true
takes_range _ = false

-- `re.compile` accepts the pattern
module _ (compiles : String → Bool) where
  valid_regex : Option String → Checked (Unit {0})
  valid_regex none = valid tt
  valid_regex (some v) = refuse (not (compiles v)) Flaw.bad_pattern

  -- `_valid_regex`, then `_coherent`
  unfoldable pub coherent : FieldSpec → Checked FieldSpec
  unfolding valid_regex
  coherent spec = do
    valid_regex spec.pattern
    refuse (is_array spec.type && not (is_some spec.items)) Flaw.no_items
    refuse (is_some spec.items && not (is_array spec.type)) Flaw.stray_items
    refuse (is_some spec.enum && not (takes_enum spec.type)) Flaw.stray_enum
    refuse (is_some spec.pattern && not (takes_pattern spec.type)) Flaw.stray_pattern
    refuse (is_reference spec.type && is_falsy spec.ref_type) Flaw.no_ref_type
    refuse (exceeds number_lt spec.minimum spec.maximum) Flaw.range_order
    refuse (exceeds ltb spec.min_length spec.max_length) Flaw.length_order
    refuse (exceeds ltb spec.min_items spec.max_items) Flaw.items_order
    refuse (spec.required && is_some spec.default) Flaw.required_default
    valid spec

pub record IndexSpec : Type 0 where
  pub fields : List String
  pub unique : Bool

pub record CiTypeDefinition : Type 0 where
  pub name : String
  pub description : Option String
  pub fields : Dict FieldSpec
  pub indexes : List IndexSpec

-- CITypeDefinition._valid_name
unfoldable pub valid_name : String → Checked String
valid_name v =
    let v' = lower (strip v) in if matches_name v' then valid v' else invalid Flaw.bad_name

abbrev pub reserved_fields : List String
reserved_fields = "id" ∷ "_id" ∷ "_meta" ∷ []

-- keyword.kwlist
abbrev pub keywords : List String
keywords =
    "False" ∷ "None" ∷ "True" ∷ "and" ∷ "as" ∷ "assert" ∷ "async" ∷ "await" ∷ "break" ∷ "class"
    ∷ "continue" ∷ "def" ∷ "del" ∷ "elif" ∷ "else" ∷ "except" ∷ "finally" ∷ "for" ∷ "from"
    ∷ "global" ∷ "if" ∷ "import" ∷ "in" ∷ "is" ∷ "lambda" ∷ "nonlocal" ∷ "not" ∷ "or" ∷ "pass"
    ∷ "raise" ∷ "return" ∷ "try" ∷ "while" ∷ "with" ∷ "yield" ∷ []

abbrev pub within : List String → String → Bool
within names k = any (str_eq k) names

check_field_name : String → Checked (Unit {0})
check_field_name fname = do
  refuse (not (matches_field fname)) Flaw.bad_field_name
  refuse (within reserved_fields fname) Flaw.reserved_field
  refuse (within keywords fname) Flaw.keyword_field

check_names : List String → Checked (Unit {0})
unfolding check_field_name
check_names [] = valid tt
check_names (k ∷ ks) = do check_field_name k; check_names ks

check_indexes : List String → List IndexSpec → Checked (Unit {0})
check_indexes declared [] = valid tt
check_indexes declared (idx ∷ rest) = do
  refuse (any (λ f. not (within declared f)) idx.fields) Flaw.unknown_index_field
  check_indexes declared rest

abbrev pub keys {ℓ} : {V : Type ℓ} → Dict V → List String
keys = map (λ e. e.0)

abbrev is_empty {ℓ} : {A : Type ℓ} → List A → Bool
is_empty [] = true
is_empty (_ ∷ _) = false

-- CITypeDefinition._validate_fields
unfoldable pub validate_fields : CiTypeDefinition → Checked CiTypeDefinition
unfolding check_names check_indexes
validate_fields d = do
  refuse (is_empty d.fields) Flaw.no_fields
  check_names (keys d.fields)
  check_indexes (keys d.fields) d.indexes
  valid d

-- the validators of a submitted definition, in pydantic's order: the name, then the whole
unfoldable pub submit : CiTypeDefinition → Checked CiTypeDefinition
unfolding valid_name validate_fields
submit d = do name ← valid_name d.name; validate_fields (record d { name = name })

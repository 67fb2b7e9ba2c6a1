-- ===== src/Schema/Compile.antt =====
-- compile_model of cmdboss/schema.py: the definitions of the fields that it passes to pydantic's
-- create_model, which stands as a parameter for whether it returns. The model is its definitions.
use cmdboss.Prelude.{
  ℕ, String, Bool, not, Option, none, some, List, [], ◌∷◌, ◌++◌, Dict, if◌then◌else◌,
}
use cmdboss.Value.{Value, Number}
use cmdboss.Schema.{
  FieldType, ScalarItemType, FieldSpec, is_falsy, is_some, takes_pattern, takes_range, is_array,
}

-- `_PRIMITIVES`: str, int, float, bool, datetime, dict
pub data Primitive : Type 0 where
  str int float bool datetime dict : Primitive

pub data Annotation : Type 0 where
  literal : List Value → Annotation
  list : Primitive → Annotation
  primitive : Primitive → Annotation

-- the keyword arguments of Field()
pub data Constraint : Type 0 where
  description pattern : String → Constraint
  min_length max_length : ℕ → Constraint
  ge le : Number → Constraint

pub record FieldDefinition : Type 0 where
  pub annotation : Annotation
  pub optional : Bool
  -- Field(...) has no default, Field(default=…) has one, `none` being Python's None
  pub default : Option (Option Value)
  pub constraints : List Constraint

-- an array has no entry in the table
primitive_of : FieldType → Option Primitive
primitive_of FieldType.string = some Primitive.str
primitive_of FieldType.integer = some Primitive.int
primitive_of FieldType.number = some Primitive.float
primitive_of FieldType.boolean = some Primitive.bool
primitive_of FieldType.datetime = some Primitive.datetime
primitive_of FieldType.object = some Primitive.dict
primitive_of FieldType.reference = some Primitive.str
primitive_of FieldType.array = none

item_primitive : ScalarItemType → Primitive
item_primitive ScalarItemType.string = Primitive.str
item_primitive ScalarItemType.integer = Primitive.int
item_primitive ScalarItemType.number = Primitive.float
item_primitive ScalarItemType.boolean = Primitive.bool
item_primitive ScalarItemType.datetime = Primitive.datetime
item_primitive ScalarItemType.reference = Primitive.str

abbrev pub opt_map {ℓ κ} : {A : Type ℓ} {B : Type κ} → (A → B) → Option A → Option B
opt_map f none = none
opt_map f (some a) = some (f a)

-- `_annotate`
unfoldable pub annotate : FieldSpec → Option Annotation
unfolding primitive_of item_primitive
annotate spec = elim spec.enum [
  | some values ↦ some (Annotation.literal values)
  | none ↦
      if is_array spec.type
      then opt_map (λ t. Annotation.list (item_primitive t)) spec.items
      else opt_map Annotation.primitive (primitive_of spec.type)
]

-- if value is not None: kw[name] = value
abbrev when {ℓ} : {A : Type ℓ} → Option A → (A → Constraint) → List Constraint
when none name = []
when (some a) name = name a ∷ []

described : FieldSpec → List Constraint
described spec =
    if is_falsy spec.description then [] else when spec.description Constraint.description

-- the constraints that the type admits
typed : FieldSpec → List Constraint
typed spec =
    if takes_pattern spec.type
    then when spec.min_length Constraint.min_length
      ++ (when spec.max_length Constraint.max_length ++ when spec.pattern Constraint.pattern)
    else if takes_range spec.type
    then when spec.minimum Constraint.ge ++ when spec.maximum Constraint.le
    else if is_array spec.type
    then when spec.min_items Constraint.min_length ++ when spec.max_items Constraint.max_length
    else []

-- `_constraints`
unfoldable pub constraints : FieldSpec → List Constraint
unfolding described typed
constraints spec = if is_some spec.enum then described spec else described spec ++ typed spec

abbrev pub definition_of : FieldSpec → Annotation → FieldDefinition
definition_of spec annotation = record {
  annotation = annotation;
  optional = not spec.required;
  default = if spec.required then none else some spec.default;
  constraints = constraints spec;
}

-- the body of the loop, whose lookup of `None` in `_PRIMITIVES` is a KeyError
unfoldable pub define_field : FieldSpec → Option FieldDefinition
define_field spec = opt_map (definition_of spec) (annotate spec)

-- the loop of compile_model: `none` is the KeyError of a lookup in `_PRIMITIVES`
unfoldable pub field_definitions : Dict FieldSpec → Option (Dict FieldDefinition)
field_definitions [] = some []
field_definitions ((fname, spec) ∷ fields) =
    let rest = field_definitions fields in
    elim (define_field spec) [ none ↦ none | some d ↦ opt_map (λ ds. (fname, d) ∷ ds) rest ]

-- compile_model: `none` also where create_model raises, which `creates` tells of a name and its
-- definitions
unfoldable pub compile_model :
    (String → Dict FieldDefinition → Bool) → String → Dict FieldSpec → Option (Dict FieldDefinition)
unfolding field_definitions
compile_model creates name fields = elim (field_definitions fields) [
  | none ↦ none
  | some defs ↦ if creates name defs then some defs else none
]

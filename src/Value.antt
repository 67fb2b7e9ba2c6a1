-- ===== src/Value.antt =====
-- The values of a document, and `jsonable` of cmdboss/utils.py. A number is a count of a fixed unit
-- with a sign, so that integers and the decimals in use are both read; an ObjectId is its 96 bits
-- and a datetime its microseconds, which `iso` spells.
pub mod Jsonable
use cmdboss.Prelude.{
  ℕ, zero, suc, ◌+◌, String, Bool, true, false, ◌&&◌, Option, none, some, ◌==◌, str_eq, ltb,
  if◌then◌else◌,
}

-- `below n` is -(n + 1)
pub data Number : Type 0 where
  above below : ℕ → Number

unfoldable pub number_lt : Number → Number → Bool
number_lt (Number.above a) (Number.above b) = ltb a b
number_lt (Number.above a) (Number.below b) = false
number_lt (Number.below a) (Number.above b) = true
number_lt (Number.below a) (Number.below b) = ltb b a

mutual
  pub data Value : Type 0 where
    null : Value
    boolean : Bool → Value
    number : Number → Value
    text : String → Value
    object_id : ℕ → Value
    datetime : ℕ → Value
    items : Values → Value
    object : Fields → Value

  pub data Values : Type 0 where
    nil : Values
    cons : Value → Values → Values

  pub data Fields : Type 0 where
    end : Fields
    field : String → Value → Fields → Fields

-- str(oid) and datetime.isoformat()
pub record Spelling : Type 0 where
  pub id_text : ℕ → String
  pub iso : ℕ → String

module _ (spell : Spelling) where
  unfoldable mutual
    pub jsonable : Value → Value
    jsonable Value.null = Value.null
    jsonable (Value.boolean b) = Value.boolean b
    jsonable (Value.number n) = Value.number n
    jsonable (Value.text s) = Value.text s
    jsonable (Value.object_id n) = Value.text (spell.id_text n)
    jsonable (Value.datetime t) = Value.text (spell.iso t)
    jsonable (Value.items xs) = Value.items (jsonable_items xs)
    jsonable (Value.object fs) = Value.object (jsonable_fields fs)

    pub jsonable_items : Values → Values
    jsonable_items Values.nil = Values.nil
    jsonable_items (Values.cons x xs) = Values.cons (jsonable x) (jsonable_items xs)

    pub jsonable_fields : Fields → Fields
    jsonable_fields Fields.end = Fields.end
    jsonable_fields (Fields.field k v fs) = Fields.field k (jsonable v) (jsonable_fields fs)

-- Python's `==` on numbers; a truth value is 1 or 0
number_eq : Number → Number → Bool
number_eq (Number.above a) (Number.above b) = a == b
number_eq (Number.below a) (Number.below b) = a == b
number_eq _ _ = false

bit : Bool → Number
bit true = Number.above 1
bit false = Number.above 0

unfoldable pub get_field : String → Fields → Option Value
get_field k Fields.end = none
get_field k (Fields.field j v fs) = if str_eq j k then some v else get_field k fs

count_fields : Fields → ℕ
count_fields Fields.end = 0
count_fields (Fields.field k v fs) = suc (count_fields fs)

-- Python's `==`: dicts are equal when they have as many keys and equal values at each
unfoldable mutual
  unfolding number_eq bit get_field count_fields

  pub value_eq : Value → Value → Bool
  value_eq Value.null Value.null = true
  value_eq (Value.boolean a) (Value.boolean b) = number_eq (bit a) (bit b)
  value_eq (Value.boolean a) (Value.number n) = number_eq (bit a) n
  value_eq (Value.number n) (Value.boolean b) = number_eq n (bit b)
  value_eq (Value.number m) (Value.number n) = number_eq m n
  value_eq (Value.text s) (Value.text t) = str_eq s t
  value_eq (Value.object_id m) (Value.object_id n) = m == n
  value_eq (Value.datetime m) (Value.datetime n) = m == n
  value_eq (Value.items xs) (Value.items ys) = items_eq xs ys
  value_eq (Value.object fs) (Value.object gs) =
      count_fields fs == count_fields gs && fields_eq fs gs
  value_eq _ _ = false

  pub items_eq : Values → Values → Bool
  items_eq Values.nil Values.nil = true
  items_eq (Values.cons x xs) (Values.cons y ys) = value_eq x y && items_eq xs ys
  items_eq _ _ = false

  pub fields_eq : Fields → Fields → Bool
  fields_eq Fields.end gs = true
  fields_eq (Fields.field k v fs) gs =
      elim (get_field k gs) [ none ↦ false | some w ↦ value_eq v w ] && fields_eq fs gs

-- ===== src/Value/Jsonable.antt =====
-- `jsonable` leaves no ObjectId and no datetime anywhere, and changes nothing that has none.
use cmdboss.Prelude.{◌≡◌, refl, ap}
use mathlib.Core.Path.{ap₂}
use cmdboss.Value.{Value, Values, Fields, Spelling, jsonable, jsonable_items, jsonable_fields}

abbrev mutual
  -- the value is made of JSON's own kinds of value
  pub IsJson : Value → Type 0
  IsJson (Value.object_id n) = ⊥
  IsJson (Value.datetime t) = ⊥
  IsJson (Value.items xs) = AreJson xs
  IsJson (Value.object fs) = HasJson fs
  IsJson Value.null = Unit
  IsJson (Value.boolean b) = Unit
  IsJson (Value.number n) = Unit
  IsJson (Value.text s) = Unit

  pub AreJson : Values → Type 0
  AreJson Values.nil = Unit
  AreJson (Values.cons x xs) = IsJson x × AreJson xs

  pub HasJson : Fields → Type 0
  HasJson Fields.end = Unit
  HasJson (Fields.field k v fs) = IsJson v × HasJson fs

module _ (spell : Spelling) where
  mutual
    unfolding jsonable jsonable_items jsonable_fields

    json : (v : Value) → IsJson (jsonable spell v)
    json Value.null = tt
    json (Value.boolean b) = tt
    json (Value.number n) = tt
    json (Value.text s) = tt
    json (Value.object_id n) = tt
    json (Value.datetime t) = tt
    json (Value.items xs) = json_items xs
    json (Value.object fs) = json_fields fs

    json_items : (xs : Values) → AreJson (jsonable_items spell xs)
    json_items Values.nil = tt
    json_items (Values.cons x xs) = (json x, json_items xs)

    json_fields : (fs : Fields) → HasJson (jsonable_fields spell fs)
    json_fields Fields.end = tt
    json_fields (Fields.field k v fs) = (json v, json_fields fs)

  mutual
    unfolding jsonable jsonable_items jsonable_fields

    fixed : (v : Value) → IsJson v → jsonable spell v ≡ v
    fixed Value.null h = refl
    fixed (Value.boolean b) h = refl
    fixed (Value.number n) h = refl
    fixed (Value.text s) h = refl
    fixed (Value.object_id n) h = absurd h
    fixed (Value.datetime t) h = absurd h
    fixed (Value.items xs) h = ap Value.items (fixed_items xs h)
    fixed (Value.object fs) h = ap Value.object (fixed_fields fs h)

    fixed_items : (xs : Values) → AreJson xs → jsonable_items spell xs ≡ xs
    fixed_items Values.nil h = refl
    fixed_items (Values.cons x xs) h = ap₂ Values.cons (fixed x h.0) (fixed_items xs h.1)

    fixed_fields : (fs : Fields) → HasJson fs → jsonable_fields spell fs ≡ fs
    fixed_fields Fields.end h = refl
    fixed_fields (Fields.field k v fs) h = ap₂ (Fields.field k) (fixed v h.0) (fixed_fields fs h.1)

  -- The result of `jsonable` is JSON at every depth, and a second pass changes nothing.
  pub jsonable_lem :
      (v : Value)
      → IsJson (jsonable spell v) × (jsonable spell (jsonable spell v) ≡ jsonable spell v)
  jsonable_lem v = (json v, fixed (jsonable spell v) (json v))

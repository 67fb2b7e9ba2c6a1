-- ===== src/Tests/Tokens.antt =====
-- Tokens for the texts of a cursor's payload: a codec that meets its laws.
use Prim.Native.Char.{code}
use cmdboss.Prelude.{
  ℕ, zero, suc, ◌≡◌, refl, String, Bool, true, false, inl, inr, Option, none, some, ◌==◌,
  if◌then◌else◌, Option-cases, some_injective,
}
use cmdboss.Value.{Value, Fields}
use cmdboss.Driver.InMemory.{in_memory}
use cmdboss.Cursor.{Codec}

-- texts one after another: `x` before each character and `.` at the end
abbrev pub put_text : String → String → String
put_text String.[] rest = String.◌∷◌ "." rest
put_text (String.◌∷◌ c s) rest = String.◌∷◌ "x" (String.◌∷◌ c (put_text s rest))

abbrev after_char : Option (String × String) → String → Option (String × String)
after_char none c = none
after_char (some (s, rest)) c = some (c, rest)

abbrev get_text : Bool → String → Option (String × String)
get_text b String.[] = none
get_text false (String.◌∷◌ c s) =
    let rest = get_text true s in if code c == 46 then some (String.[], s) else rest
get_text true (String.◌∷◌ c s) = elim (get_text false s) [
  | none ↦ none
  | some (t, rest) ↦ some (String.◌∷◌ c t, rest)
]

get_text-put_text : (s rest : String) → get_text false (put_text s rest) ≡ some (s, rest)
get_text-put_text String.[] rest = refl
get_text-put_text (String.◌∷◌ c s) rest = rw (get_text-put_text s rest) refl

abbrev as_text : Value → Option String
as_text Value.null = none
as_text (Value.boolean b) = none
as_text (Value.number n) = none
as_text (Value.text s) = some s
as_text (Value.object_id n) = none
as_text (Value.datetime n) = none
as_text (Value.items xs) = none
as_text (Value.object fs) = none

as_text_lem : (v : Value) (s : String) → as_text v ≡ some s → v ≡ Value.text s
as_text_lem Value.null s h = cc
as_text_lem (Value.boolean b) s h = cc
as_text_lem (Value.number n) s h = cc
as_text_lem (Value.text t) s h = cc
as_text_lem (Value.object_id n) s h = cc
as_text_lem (Value.datetime n) s h = cc
as_text_lem (Value.items xs) s h = cc
as_text_lem (Value.object fs) s h = cc

-- an object of that many fields with texts
abbrev put_fields : ℕ → Fields → Option String
put_fields zero Fields.end = some ""
put_fields zero (Fields.field k v fs) = none
put_fields (suc n) Fields.end = none
put_fields (suc n) (Fields.field k v fs) = elim (as_text v) [
  | none ↦ none
  | some s ↦ elim (put_fields n fs) [ none ↦ none | some t ↦ some (put_text k (put_text s t)) ]
]

abbrev get_fields : ℕ → String → Option Fields
get_fields zero t = some Fields.end
get_fields (suc n) t = elim (get_text false t) [
  | none ↦ none
  | some (k, r) ↦ elim (get_text false r) [
    | none ↦ none
    | some (s, r') ↦ elim (get_fields n r') [
      | none ↦ none
      | some fs ↦ some (Fields.field k (Value.text s) fs)
    ]
  ]
]

get_fields-put_fields :
    (n : ℕ) (fs : Fields) (t : String) → put_fields n fs ≡ some t → get_fields n t ≡ some fs
get_fields-put_fields zero Fields.end t h = refl
get_fields-put_fields zero (Fields.field k v fs) t h = cc
get_fields-put_fields (suc n) Fields.end t h = cc
get_fields-put_fields (suc n) (Fields.field k v fs) t h = elim (Option-cases (as_text v)) [
  | inl e ↦ cc (rw (e, put_fields) at h)
  | inr (s, e) ↦ elim (Option-cases (put_fields n fs)) [
    | inl e' ↦ cc (rw (e, e', put_fields) at h)
    | inr (t', e') ↦
        let same = some_injective (rw (e, e', put_fields) at h) in
        rw
          (
            ← same,
            get_fields,
            get_text-put_text k (put_text s t'),
            get_text-put_text s t',
            get_fields-put_fields n fs t' e',
            as_text_lem v s e,
          )
          refl
  ]
]

abbrev dump : Value → Option String
dump (Value.object fs) = put_fields 3 fs
dump Value.null = none
dump (Value.boolean b) = none
dump (Value.number n) = none
dump (Value.text s) = none
dump (Value.object_id n) = none
dump (Value.datetime n) = none
dump (Value.items xs) = none

abbrev load : String → Option Value
load t = elim (get_fields 3 t) [ none ↦ none | some fs ↦ some (Value.object fs) ]

pub load-dump : (v : Value) (t : String) → dump v ≡ some t → load t ≡ some v
load-dump (Value.object fs) t h = rw (load, get_fields-put_fields 3 fs t h) refl
load-dump Value.null t h = cc
load-dump (Value.boolean b) t h = cc
load-dump (Value.number n) t h = cc
load-dump (Value.text s) t h = cc
load-dump (Value.object_id n) t h = cc
load-dump (Value.datetime n) t h = cc
load-dump (Value.items xs) t h = cc

abbrev pub unary : ℕ → String
unary = in_memory.id_text

abbrev pub codec : Codec unary
codec = record {
  dump = dump;
  load = load;
  from_iso = in_memory.object_id;
  load-dump = load-dump;
  from_iso-iso = in_memory.object_id-id_text;
}

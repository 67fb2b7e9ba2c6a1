-- ===== src/Schema/Constraints.antt =====
-- The constraints that a field is given, by the Python annotation that they stand at.
use cmdboss.Prelude.{◌≡◌, ◌≢◌, ◌↔◌, ◌⊎◌, Bool, true, false, some, List, [], ◌∷◌, arith, All, eq_iff}
use cmdboss.Schema.{FieldSpec}
use cmdboss.Schema.Compile.{Primitive, Annotation, Constraint, annotate, constraints}

-- membership, as it computes on a list
abbrev pub Among : Constraint → List Constraint → Type 0
Among c [] = ⊥
Among c (x ∷ xs) = (c ≡ x) ⊎ Among c xs

-- what a specification declares for a field with an annotation
abbrev pub Declared : FieldSpec → Annotation → Constraint → Type 0
Declared spec a (Constraint.description t) = (spec.description ≡ some t) × (t ≢ "")
Declared spec (Annotation.primitive Primitive.str) (Constraint.pattern p) = spec.pattern ≡ some p
Declared spec (Annotation.primitive Primitive.str) (Constraint.min_length n) =
    spec.min_length ≡ some n
Declared spec (Annotation.primitive Primitive.str) (Constraint.max_length n) =
    spec.max_length ≡ some n
Declared spec (Annotation.list t) (Constraint.min_length n) = spec.min_items ≡ some n
Declared spec (Annotation.list t) (Constraint.max_length n) = spec.max_items ≡ some n
Declared spec (Annotation.primitive Primitive.int) (Constraint.ge x) = spec.minimum ≡ some x
Declared spec (Annotation.primitive Primitive.int) (Constraint.le x) = spec.maximum ≡ some x
Declared spec (Annotation.primitive Primitive.float) (Constraint.ge x) = spec.minimum ≡ some x
Declared spec (Annotation.primitive Primitive.float) (Constraint.le x) = spec.maximum ≡ some x
Declared spec a c = ⊥

-- A field that has an annotation is given exactly the constraints that its specification declares
-- and that stand at such an annotation: the description if it is not empty, lengths and a pattern at
-- a text, the counts of the items at a list, the bounds at a number, and no other, so that an
-- enumeration has at most its description.
pub constraints-Declared :
    (spec : FieldSpec) (a : Annotation) (c : Constraint)
    → annotate spec ≡ some a
    → Among c (constraints spec) ↔ Declared spec a c
unfolding constraints annotate
constraints-Declared spec a (Constraint.description t) h = ground (arith, eq_iff t "")
constraints-Declared spec a (Constraint.pattern p) h = ground arith
constraints-Declared spec a (Constraint.min_length n) h = ground arith
constraints-Declared spec a (Constraint.max_length n) h = ground arith
constraints-Declared spec a (Constraint.ge x) h = ground arith
constraints-Declared spec a (Constraint.le x) h = ground arith

-- the kinds of constraint that go with an annotation
abbrev pub takes : Annotation → Constraint → Bool
takes a (Constraint.description t) = true
takes (Annotation.primitive Primitive.str) (Constraint.pattern p) = true
takes (Annotation.primitive Primitive.str) (Constraint.min_length n) = true
takes (Annotation.primitive Primitive.str) (Constraint.max_length n) = true
takes (Annotation.list t) (Constraint.min_length n) = true
takes (Annotation.list t) (Constraint.max_length n) = true
takes (Annotation.primitive Primitive.int) (Constraint.ge x) = true
takes (Annotation.primitive Primitive.int) (Constraint.le x) = true
takes (Annotation.primitive Primitive.float) (Constraint.ge x) = true
takes (Annotation.primitive Primitive.float) (Constraint.le x) = true
takes a c = false

pub constraints-takes :
    (spec : FieldSpec) (a : Annotation)
    → annotate spec ≡ some a
    → All (λ c. takes a c ≡ true) (constraints spec)
unfolding constraints annotate
constraints-takes spec a h = ground arith

-- ===== src/Schema/Coherence.antt =====
-- What the validators of schema.py secure: a coherent specification has a definition.
use cmdboss.Prelude.{
  ℕ, String, ◌≡◌, ◌↔◌, ◌≤◌, refl, ltb, Bool, true, false, Option, none, some, Dict, arith, All,
}
use cmdboss.Value.{number_lt}
use cmdboss.Schema.{
  FieldSpec, takes_enum, valid_regex, is_reference, is_falsy, exceeds, valid, coherent, is_some,
  is_array, takes_pattern,
}
use cmdboss.Schema.Constraints.{takes}
use cmdboss.Schema.Compile.{FieldDefinition}

exceeds-eq-false :
    (a b : Option ℕ) → ((lo hi : ℕ) → a ≡ some lo → b ≡ some hi → lo ≤ hi) → exceeds ltb a b ≡ false
exceeds-eq-false none b h = refl
exceeds-eq-false (some lo) none h = refl
exceeds-eq-false (some lo) (some hi) h = ground (arith, h lo hi refl refl)

valid_regex-eq-valid :
    (compiles : String → Bool) (o : Option String)
    → ((p : String) → o ≡ some p → compiles p ≡ true)
    → valid_regex compiles o ≡ valid tt
unfolding valid_regex
valid_regex-eq-valid compiles none h = refl
valid_regex-eq-valid compiles (some p) h = rw (h p refl)

-- What a coherent specification satisfies, in words of its own.
pub record IsCoherent (compiles : String → Bool) (spec : FieldSpec) : Type 0 where
  pub regex : (p : String) → spec.pattern ≡ some p → compiles p ≡ true
  pub array_items : is_array spec.type ≡ is_some spec.items
  pub enum_type : is_some spec.enum ≡ true → takes_enum spec.type ≡ true
  pub pattern_type : is_some spec.pattern ≡ true → takes_pattern spec.type ≡ true
  pub ref_target : is_reference spec.type ≡ true → is_falsy spec.ref_type ≡ false
  pub range : exceeds number_lt spec.minimum spec.maximum ≡ false
  pub lengths : (lo hi : ℕ) → spec.min_length ≡ some lo → spec.max_length ≡ some hi → lo ≤ hi
  pub item_counts : (lo hi : ℕ) → spec.min_items ≡ some lo → spec.max_items ≡ some hi → lo ≤ hi
  pub no_default : spec.required ≡ true → spec.default ≡ none

module _ (compiles : String → Bool) (spec : FieldSpec) where
  -- The validators accept a specification exactly when it is coherent.
  pub coherent_iff : (coherent compiles spec ≡ valid spec) ↔ IsCoherent compiles spec
  unfolding coherent
  coherent_iff = (accepted, complete)
    where
      accepted : coherent compiles spec ≡ valid spec → IsCoherent compiles spec
      accepted h = record {
        regex = λ p e. ground arith;
        array_items = ground arith;
        enum_type = ground arith;
        pattern_type = ground arith;
        ref_target = ground arith;
        range = ground arith;
        lengths = λ lo hi e f. ground arith;
        item_counts = λ lo hi e f. ground arith;
        no_default = ground arith;
      }

      complete : IsCoherent compiles spec → coherent compiles spec ≡ valid spec
      complete c = ground (
        arith,
        valid_regex-eq-valid compiles spec.pattern c.regex,
        exceeds-eq-false spec.min_length spec.max_length c.lengths,
        exceeds-eq-false spec.min_items spec.max_items c.item_counts,
      )

-- the annotation that a definition has takes each of its constraints
abbrev pub Suits : FieldDefinition → Type 0
Suits d = All (λ c. takes d.annotation c ≡ true) d.constraints

abbrev pub AllCoherent : (String → Bool) → Dict FieldSpec → Type 0
AllCoherent compiles = All (λ (k, spec). coherent compiles spec ≡ valid spec)

-- ===== src/Audit/Changes.antt =====
-- The changes of an update name exactly the fields that it changed.
use cmdboss.Prelude.{
  String, ◌≡◌, refl, Bool, false, not, ◌||◌, Option, none, some, List, [], ◌∷◌, ◌++◌, sym, Dict,
  lookup, any, select, str_eq, eq_iff, arith, if◌then◌else◌, Bool-cases, inl, inr,
}
use cmdboss.Value.{Value, Spelling, jsonable, value_eq}
use cmdboss.Audit.{Change, value_at, diff_keys, diff, all_keys, keys}

abbrev pub is_system : String → Bool
is_system k = str_eq k "_meta" || str_eq k "id"

-- the entry that a key has in the diff of two dicts
abbrev pub change_at : Spelling → String → Dict Value → Dict Value → Option Change
change_at spell k before after =
    if is_system k || value_eq (value_at k before) (value_at k after)
    then none
    else some (record {
      before = jsonable spell (value_at k before);
      after = jsonable spell (value_at k after);
    })

any-append : (p : String → Bool) (xs ys : List String) → any p (xs ++ ys) ≡ (any p xs || any p ys)
unfolding any
any-append p [] ys = refl
any-append p (x ∷ xs) ys = ground (arith, any-append p xs ys)

any-select_new :
    (k : String) (xs ys : List String)
    → any (str_eq k) xs ≡ false
    → any (str_eq k) (select (λ j. not (any (str_eq j) xs)) ys) ≡ any (str_eq k) ys
unfolding any select
any-select_new k xs [] h = refl
any-select_new k xs (y ∷ ys) h = elim (Bool-cases (str_eq k y)) [
  | inl e ↦ rw (← (eq_iff k y).0 e, h, (eq_iff k k).1 refl) refl
  | inr e ↦ ground (arith, e, any-select_new k xs ys)
]

-- a key of neither dict reads as None on both sides
absent : (k : String) (d : Dict Value) → any (str_eq k) (keys d) ≡ false → value_at k d ≡ Value.null
unfolding any lookup
absent k [] h = refl
absent k ((j, v) ∷ d) h = ground (arith, eq_iff k j, eq_iff j k, absent k d)

module _ (spell : Spelling) (before after : Dict Value) (k : String) where
  lookup-diff_keys :
      (ks : List String)
      → lookup k (diff_keys spell before after ks)
        ≡ (if any (str_eq k) ks then change_at spell k before after else none)
  unfolding lookup diff_keys any
  lookup-diff_keys [] = refl
  lookup-diff_keys (j ∷ ks) = elim (Bool-cases (str_eq k j)) [
    | inl e ↦ rw (← (eq_iff k j).0 e) (ground (arith, eq_iff k k, lookup-diff_keys ks))
    | inr e ↦ ground (arith, e, eq_iff j k, eq_iff k j, lookup-diff_keys ks)
  ]

  -- keys of neither dict change nothing
  no_change :
      any (str_eq k) (keys before) ≡ false
      → any (str_eq k) (keys after) ≡ false
      → change_at spell k before after ≡ none
  unfolding value_eq
  no_change b a = rw (absent k before b, absent k after a) (ground arith)

  any-all_keys :
      any (str_eq k) (all_keys (keys before) (keys after)) ≡ false
      → (any (str_eq k) (keys before) ≡ false) × (any (str_eq k) (keys after) ≡ false)
  unfolding all_keys
  any-all_keys h = ground (
    arith,
    h,
    any-append (str_eq k) (keys before)
        (select (λ j. not (any (str_eq j) (keys before))) (keys after)),
    any-select_new k (keys before) (keys after),
  )

  -- The entry of a field in the changes of an update: its values before and after where they differ,
  -- and none where they are equal, where both dicts lack it, and for the keys of the system.
  pub lookup-diff : lookup k (diff spell before after) ≡ change_at spell k before after
  unfolding diff
  lookup-diff =
      let ks = all_keys (keys before) (keys after) in
      elim (Bool-cases (any (str_eq k) ks)) [
        | inl e ↦ rw (lookup-diff_keys ks, e)
        | inr e ↦ let (b, a) = any-all_keys e in rw (lookup-diff_keys ks, e) (sym (no_change b a))
      ]

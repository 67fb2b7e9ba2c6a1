-- ===== src/Http/Revisions.antt =====
-- The revision of a CI as an ETag, and as the If-Match of the request that follows.
use Prim.Native.Char.{Char, code}
use cmdboss.Prelude.{
  ℕ, ◌≡◌, ◌≢◌, refl, ap, ◌∙◌, sym, String, Bool, false, none, some, str_eq, eq_iff, ◌==◌, arith,
  inl, inr, Bool-cases, subst,
}
use cmdboss.Value.{Number}
use cmdboss.Text.{strip, is_space, is_digit}
use cmdboss.Text.Numerals.{print_nat, parse_int}
use cmdboss.Text.Numerals.RoundTrip.{
  AreDigits, print_nat-AreDigits, AreDigits-HasNoSpace, HasNoSpace, strip_plain,
  parse_int-print_nat,
}
use cmdboss.Errors.Result.{ok}
use cmdboss.Http.{then_quote, etag_of, parse_if_match, lstrip_quotes, rstrip_quotes}

HasNoSpace-quoted : (s : String) → HasNoSpace s → HasNoSpace (then_quote s)
unfolding is_space
HasNoSpace-quoted String.[] h = (refl, tt)
HasNoSpace-quoted (String.◌∷◌ c s) h = (h.0, HasNoSpace-quoted s h.1)

-- digits keep their place when the quotes around them go
lstrip_quotes_digits :
    (s : String) → AreDigits s → s ≢ "" → lstrip_quotes (then_quote s) ≡ then_quote s
unfolding lstrip_quotes is_digit
lstrip_quotes_digits String.[] h k = absurd (k refl)
lstrip_quotes_digits (String.◌∷◌ c s) h k =
    let other : (code c == 34) ≡ false = ground arith in rw other refl

rstrip_quotes_digits : (s : String) → AreDigits s → rstrip_quotes (then_quote s) ≡ s
unfolding rstrip_quotes is_digit
rstrip_quotes_digits String.[] h = refl
rstrip_quotes_digits (String.◌∷◌ c s) h =
    let other : (code c == 34) ≡ false = ground arith in
    rw other (ap (String.◌∷◌ c) (rstrip_quotes_digits s h.1))

parse_int_empty : parse_int "" ≡ none
unfolding parse_int strip
parse_int_empty = refl

print_nat-ne-empty : (n : ℕ) → print_nat n ≢ ""
print_nat-ne-empty n h = cc (sym parse_int_empty ∙ ap parse_int (sym h) ∙ parse_int-print_nat n)

digits-ne-star : (s : String) → AreDigits s → str_eq s "*" ≡ false
unfolding is_digit
digits-ne-star s h = elim (Bool-cases (str_eq s "*")) [
  | inl e ↦ let star : AreDigits "*" = subst AreDigits ((eq_iff s "*").0 e) h in cc star.0
  | inr e ↦ e
]

cons-ne-empty : (c : Char) (s : String) → str_eq (String.◌∷◌ c s) "" ≡ false
cons-ne-empty c s = elim (Bool-cases (str_eq (String.◌∷◌ c s) "")) [
  | inl e ↦ cc ((eq_iff (String.◌∷◌ c s) "").0 e)
  | inr e ↦ e
]

etag_not_empty : (n : ℕ) → str_eq (etag_of n) "" ≡ false
unfolding etag_of
etag_not_empty n = cons-ne-empty "\"" (then_quote (print_nat n))

strip-etag_of : (n : ℕ) → strip (etag_of n) ≡ etag_of n
unfolding etag_of is_space
strip-etag_of n =
    let ds = print_nat n in
    strip_plain (String.◌∷◌ "\"" (then_quote ds))
      (refl, HasNoSpace-quoted ds (AreDigits-HasNoSpace ds (print_nat-AreDigits n)))

unquoted : (n : ℕ) → rstrip_quotes (lstrip_quotes (etag_of n)) ≡ print_nat n
unfolding etag_of lstrip_quotes
unquoted n =
    let ds = print_nat n in
    ap rstrip_quotes (lstrip_quotes_digits ds (print_nat-AreDigits n) (print_nat-ne-empty n))
    ∙ rstrip_quotes_digits ds (print_nat-AreDigits n)

-- the If-Match header of an ETag is read as the revision of the ETag
pub parse_if_match-etag_of :
    (required : Bool) (n : ℕ)
    → parse_if_match required (some (etag_of n)) ≡ ok (some (Number.above n))
unfolding parse_if_match
parse_if_match-etag_of required n =
    rw
      (
        etag_not_empty n,
        strip-etag_of n,
        unquoted n,
        digits-ne-star (print_nat n) (print_nat-AreDigits n),
        parse_int-print_nat n,
      )
      refl

-- ===== src/Text/Numerals.antt =====
-- Python's `str(n)` and `int(text)` in ASCII digits.
pub mod RoundTrip
use Prim.Native.Char.{Char, code}
use Prim.Native.Nat.{◌/◌, ◌%◌}
use Prim.Native.String.{◌++◌ as text_append}
use cmdboss.Prelude.{
  ℕ, zero, suc, ◌+◌, ◌-◌, ◌*◌, ◌<◌, ◌≤◌, ◌≡◌, refl, ap, ◌∙◌, sym, String, Bool, true, false, ◌&&◌,
  Option, none, some, ltb, leb, ◌==◌, if◌then◌else◌, arith, inl, inr, Bool-cases,
}
use cmdboss.Value.{Number}
use cmdboss.Text.{strip, is_digit}

unfoldable pub digit : ℕ → Char
digit zero = "0"
digit (suc zero) = "1"
digit (suc (suc zero)) = "2"
digit (suc (suc (suc zero))) = "3"
digit (suc (suc (suc (suc zero)))) = "4"
digit (suc (suc (suc (suc (suc zero))))) = "5"
digit (suc (suc (suc (suc (suc (suc zero)))))) = "6"
digit (suc (suc (suc (suc (suc (suc (suc zero))))))) = "7"
digit (suc (suc (suc (suc (suc (suc (suc (suc zero)))))))) = "8"
digit (suc (suc (suc (suc (suc (suc (suc (suc (suc n))))))))) = "9"

-- the digits of a number before a text; the fuel bounds their count
unfoldable pub digits : ℕ → ℕ → String → String
unfolding digit
digits zero n out = out
digits (suc fuel) n out = elim (ltb n 10) [
  | true ↦ String.◌∷◌ (digit n) out
  | false ↦ digits fuel (n / 10) (String.◌∷◌ (digit (n % 10)) out)
]

-- str(n)
unfoldable pub print_nat : ℕ → String
unfolding digits
print_nat n = digits (suc n) n String.[]

-- the digits of `int`, with single underscores between them
unfoldable pub scan_digits : Bool → ℕ → String → Option ℕ
unfolding is_digit
scan_digits after n String.[] = if after then some n else none
scan_digits after n (String.◌∷◌ c s) = elim (is_digit c) [
  | true ↦ scan_digits true (n * 10 + (code c - 48)) s
  | false ↦ elim (code c == 95 && after) [ true ↦ scan_digits false n s | false ↦ none ]
]

abbrev positive : Option ℕ → Option Number
positive none = none
positive (some n) = some (Number.above n)

abbrev negative : Option ℕ → Option Number
negative none = none
negative (some zero) = some (Number.above 0)
negative (some (suc n)) = some (Number.below n)

-- after the spaces: a sign, and then digits
unfoldable pub parse_signed : String → Option Number
unfolding scan_digits
parse_signed String.[] = none
parse_signed (String.◌∷◌ c s) =
    if code c == 45
    then negative (scan_digits false 0 s)
    else if code c == 43
    then positive (scan_digits false 0 s)
    else positive (scan_digits false 0 (String.◌∷◌ c s))

-- int(text), none for a ValueError
unfoldable pub parse_int : String → Option Number
unfolding parse_signed
parse_int s = parse_signed (strip s)

numerals :
    (print_nat 120 ≡ "120")
    × (parse_int " -1_0\n" ≡ some (Number.below 9))
    × (parse_int "1__0" ≡ none)
    × (parse_int "+" ≡ none)
unfolding print_nat parse_int is_digit strip
numerals = (refl, refl, refl, refl)

-- ===== src/Text/Numerals/RoundTrip.antt =====
-- A number is read back from its digits, which hold no space and no sign.
use Prim.Native.Char.{code}
use Prim.Native.Nat.{◌/◌, ◌%◌}
use cmdboss.Prelude.{
  ℕ, zero, suc, ◌+◌, ◌-◌, ◌*◌, ◌<◌, ◌≡◌, refl, ap, ◌∙◌, String, Bool, true, false, some, ltb, ◌==◌,
  arith, inl, inr, Bool-cases,
}
use cmdboss.Value.{Number}
use cmdboss.Text.{strip, is_digit, is_space, lstrip, rstrip}
use cmdboss.Text.Numerals.{digit, digits, print_nat, scan_digits, parse_signed, parse_int}

abbrev pub AreDigits : String → Type 0
AreDigits String.[] = Unit
AreDigits (String.◌∷◌ c s) = (is_digit c ≡ true) × AreDigits s

code-digit : (d : ℕ) → d < 10 → code (digit d) ≡ 48 + d
unfolding digit
code-digit zero h = refl
code-digit (suc zero) h = refl
code-digit (suc (suc zero)) h = refl
code-digit (suc (suc (suc zero))) h = refl
code-digit (suc (suc (suc (suc zero)))) h = refl
code-digit (suc (suc (suc (suc (suc zero))))) h = refl
code-digit (suc (suc (suc (suc (suc (suc zero)))))) h = refl
code-digit (suc (suc (suc (suc (suc (suc (suc zero))))))) h = refl
code-digit (suc (suc (suc (suc (suc (suc (suc (suc zero)))))))) h = refl
code-digit (suc (suc (suc (suc (suc (suc (suc (suc (suc n))))))))) h = ground arith

digit-is_digit : (d : ℕ) → d < 10 → is_digit (digit d) ≡ true
unfolding is_digit
digit-is_digit d h = ground (arith, code-digit d h)

digits-AreDigits : (fuel n : ℕ) (out : String) → AreDigits out → AreDigits (digits fuel n out)
unfolding digits
digits-AreDigits zero n out h = h
digits-AreDigits (suc fuel) n out h = elim (Bool-cases (ltb n 10)) [
  | inl e ↦ rw (digits, e) (digit-is_digit n (ground arith), h)
  | inr e ↦
      rw (digits, e) (digits-AreDigits fuel (n / 10) _ (digit-is_digit (n % 10) (omega arith), h))
]

pub print_nat-AreDigits : (n : ℕ) → AreDigits (print_nat n)
unfolding print_nat
print_nat-AreDigits n = digits-AreDigits (suc n) n String.[] tt

scan_digit :
    (b : Bool) (n d : ℕ) (s : String)
    → d < 10
    → scan_digits b n (String.◌∷◌ (digit d) s) ≡ scan_digits true (n * 10 + d) s
unfolding scan_digits
scan_digit b n d s h =
    let sum : n * 10 + (code (digit d) - 48) ≡ n * 10 + d = omega (arith, code-digit d h) in
    rw (scan_digits, digit-is_digit d h, sum) refl

scan_digits-digits :
    (fuel n : ℕ) (b : Bool) (out : String)
    → n < fuel
    → scan_digits b 0 (digits fuel n out) ≡ scan_digits true n out
unfolding digits
scan_digits-digits zero n b out h = absurd (omega arith)
scan_digits-digits (suc fuel) n b out h = elim (Bool-cases (ltb n 10)) [
  | inl e ↦
      rw (digits, e)
        (scan_digit b 0 n out (ground arith) ∙ ap (λ m. scan_digits true m out) (omega arith))
  | inr e ↦
      rw (digits, e)
        (scan_digits-digits fuel (n / 10) b _ (ground arith)
          ∙ scan_digit true (n / 10) (n % 10) out (omega arith)
          ∙ ap (λ m. scan_digits true m out) (omega arith))
]

scan_end : (n : ℕ) → scan_digits true n String.[] ≡ some n
unfolding scan_digits
scan_end n = refl

scan_nothing : (n : ℕ) → scan_digits false 0 String.[] ≡ some n → ⊥
unfolding scan_digits
scan_nothing n h = cc

pub scan_digits-print_nat : (n : ℕ) → scan_digits false 0 (print_nat n) ≡ some n
unfolding print_nat
scan_digits-print_nat n = scan_digits-digits (suc n) n false String.[] (omega arith) ∙ scan_end n

-- a text without spaces
abbrev pub HasNoSpace : String → Type 0
HasNoSpace String.[] = Unit
HasNoSpace (String.◌∷◌ c s) = (is_space c ≡ false) × HasNoSpace s

pub strip_plain : (s : String) → HasNoSpace s → strip s ≡ s
unfolding strip
strip_plain s h = ap rstrip (left s h) ∙ right s h
  where
    left : (s : String) → HasNoSpace s → lstrip s ≡ s
    left String.[] h = refl
    left (String.◌∷◌ c s) h = rw h.0 refl

    right : (s : String) → HasNoSpace s → rstrip s ≡ s
    right String.[] h = refl
    right (String.◌∷◌ c s) h = rw (h.0) (ap (String.◌∷◌ c) (right s h.1))

pub AreDigits-HasNoSpace : (s : String) → AreDigits s → HasNoSpace s
unfolding is_digit is_space
AreDigits-HasNoSpace String.[] h = tt
AreDigits-HasNoSpace (String.◌∷◌ c s) h = (ground arith, AreDigits-HasNoSpace s h.1)

parse_signed_digits :
    (s : String) (n : ℕ)
    → AreDigits s
    → scan_digits false 0 s ≡ some n
    → parse_signed s ≡ some (Number.above n)
unfolding parse_signed is_digit
parse_signed_digits String.[] n h k = absurd (scan_nothing n k)
parse_signed_digits (String.◌∷◌ c s) n h k =
    let minus : (code c == 45) ≡ false = ground arith in
    let plus : (code c == 43) ≡ false = ground arith in rw (minus, plus, k) refl

-- int(str(n))
pub parse_int-print_nat : (n : ℕ) → parse_int (print_nat n) ≡ some (Number.above n)
unfolding parse_int
parse_int-print_nat n =
    rw (strip_plain (print_nat n) (AreDigits-HasNoSpace (print_nat n) (print_nat-AreDigits n)))
      (parse_signed_digits (print_nat n) n (print_nat-AreDigits n) (scan_digits-print_nat n))

-- ===== src/Text.antt =====
-- Python's text methods on names: `lower` and `upper` for ASCII, `strip`, and the regular expressions of
-- schema.py and graph_schema.py as tests on characters.
pub mod Numerals
use Prim.Native.Char.{Char, code}
use cmdboss.Prelude.{
  ℕ, zero, suc, String, Bool, true, false, ◌&&◌, ◌||◌, ◌≡◌, refl, ◌==◌, leb, ltb, if◌then◌else◌,
}

-- the entry of the second text at the place of `c` in the first
translate : String → String → Char → Char
translate String.[] ys c = c
translate (String.◌∷◌ x xs) String.[] c = c
translate (String.◌∷◌ x xs) (String.◌∷◌ y ys) c = if code x == code c then y else translate xs ys c

lower_char : Char → Char
unfolding translate
lower_char = translate "ABCDEFGHIJKLMNOPQRSTUVWXYZ" "abcdefghijklmnopqrstuvwxyz"

-- name.lower()
unfoldable pub lower : String → String
unfolding lower_char
lower String.[] = String.[]
lower (String.◌∷◌ c s) = String.◌∷◌ (lower_char c) (lower s)

upper_char : Char → Char
unfolding translate
upper_char = translate "abcdefghijklmnopqrstuvwxyz" "ABCDEFGHIJKLMNOPQRSTUVWXYZ"

-- text.upper()
unfoldable pub upper : String → String
unfolding upper_char
upper String.[] = String.[]
upper (String.◌∷◌ c s) = String.◌∷◌ (upper_char c) (upper s)

-- the order of texts by code points, which is the order of their UTF-8 bytes
unfoldable pub text_le : String → String → Bool
text_le String.[] t = true
text_le (String.◌∷◌ c s) String.[] = false
text_le (String.◌∷◌ c s) (String.◌∷◌ d t) = ltb (code c) (code d) || code c == code d && text_le s t

abbrev is_between : ℕ → ℕ → ℕ → Bool
is_between low high n = leb low n && leb n high

-- str.isspace of one character: tab to carriage return, the four separators before the space, and
-- the spaces outside ASCII
unfoldable pub is_space : Char → Bool
is_space c =
    let n = code c in
    is_between 9 13 n
    || is_between 28 32 n
    || n == 133
    || n == 160
    || n == 5760
    || is_between 8192 8202 n
    || is_between 8232 8233 n
    || n == 8239
    || n == 8287
    || n == 12288

lstrip : String → String
unfolding is_space
lstrip String.[] = String.[]
lstrip (String.◌∷◌ c s) = if is_space c then lstrip s else String.◌∷◌ c s

is_blank : String → Bool
is_blank String.[] = true
is_blank (String.◌∷◌ c s) = is_space c && is_blank s

rstrip : String → String
unfolding is_blank
rstrip String.[] = String.[]
rstrip (String.◌∷◌ c s) = if is_blank (String.◌∷◌ c s) then String.[] else String.◌∷◌ c (rstrip s)

-- text.strip()
unfoldable pub strip : String → String
unfolding lstrip rstrip
strip s = rstrip (lstrip s)

is_lower : Char → Bool
is_lower c = leb 97 (code c) && leb (code c) 122

is_upper : Char → Bool
is_upper c = leb 65 (code c) && leb (code c) 90

unfoldable pub is_digit : Char → Bool
is_digit c = leb 48 (code c) && leb (code c) 57

-- [..]{0,n}$ after the first character: `$` also stands before a newline that ends the text
tail_matches : (Char → Bool) → ℕ → String → Bool
tail_matches p n String.[] = true
tail_matches p zero (String.◌∷◌ c s) = code c == 10 && is_empty s
  where
    is_empty : String → Bool
    is_empty String.[] = true
    is_empty (String.◌∷◌ _ _) = false
tail_matches p (suc n) (String.◌∷◌ c String.[]) = p c || code c == 10
tail_matches p (suc n) (String.◌∷◌ c s) = p c && tail_matches p n s

-- ^[a-z][a-z0-9_]{0,62}$
unfoldable pub matches_name : String → Bool
unfolding is_lower is_digit tail_matches
matches_name String.[] = false
matches_name (String.◌∷◌ c s) =
    is_lower c && tail_matches (λ d. is_lower d || is_digit d || code d == 95) 62 s

-- ^[a-zA-Z][a-zA-Z0-9_]{0,62}$
unfoldable pub matches_field : String → Bool
unfolding is_lower is_upper is_digit tail_matches
matches_field String.[] = false
matches_field (String.◌∷◌ c s) =
    (is_lower c || is_upper c)
    && tail_matches (λ d. is_lower d || is_upper d || is_digit d || code d == 95) 62 s

names :
    (matches_name "server_2" ≡ true)
    × (matches_name "2server" ≡ false)
    × (strip (lower "  Ab\n") ≡ "ab")
    × (matches_field "ab\n" ≡ true)
unfolding matches_name strip lower matches_field
names = (refl, refl, refl, refl)

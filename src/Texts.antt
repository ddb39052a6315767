-- ===== src/Texts.antt =====
-- What the program uses of Go's `strings` and `strconv`: lists of names in one text, separated by
-- commas, and decimal numbers. Letters other than those of ASCII have no other case here.
use Prim.Native.Char.{Char, code}
use Prim.Native.String.{◌++◌ as str_append}
pub mod Split
pub mod Decimal
use evsys.Common.{
  Bool, List, Option, String, [], if◌then◌else◌, int_has_eq, leb, ltb, nat_has_eq, negsuc, none,
  opposite, pos, some, string_has_eq, suc, zero, ℕ, ℤ, ◌%◌, ◌&&◌, ◌*◌, ◌+◌, ◌-◌, ◌/◌, ◌==◌, ◌||◌,
  ◌∷◌,
}

-- unicode.IsSpace
abbrev pub is_space : Char → Bool
is_space c =
    let n = code c in
    (leb 9 n && leb n 13)
    || n == 32
    || n == 133
    || n == 160
    || n == 5760
    || (leb 8192 n && leb n 8202)
    || n == 8232
    || n == 8233
    || n == 8239
    || n == 8287
    || n == 12288

unfoldable pub trim_left : String → String
trim_left String.[] = ""
trim_left (String.◌∷◌ c s) = let rest = trim_left s in if is_space c then rest else String.◌∷◌ c s

-- The text with `c` before it, unless both are blank.
unfoldable pub unless_blank : Char → String → String
unless_blank c String.[] = if is_space c then "" else String.◌∷◌ c ""
unless_blank c (String.◌∷◌ d s) = String.◌∷◌ c (String.◌∷◌ d s)

unfoldable pub trim_right : String → String
unfolding unless_blank
trim_right String.[] = ""
trim_right (String.◌∷◌ c s) = unless_blank c (trim_right s)

-- strings.TrimSpace
unfoldable pub trim_space : String → String
unfolding trim_left trim_right
trim_space s = trim_right (trim_left s)

abbrev pub is_comma : Char → Bool
is_comma c = code c == 44

unfoldable pub prepend : Char → List String → List String
prepend c [] = String.◌∷◌ c "" ∷ []
prepend c (x ∷ xs) = String.◌∷◌ c x ∷ xs

-- strings.Split(s, ",")
unfoldable pub split : String → List String
unfolding prepend
split String.[] = "" ∷ []
split (String.◌∷◌ c s) = let rest = split s in if is_comma c then "" ∷ rest else prepend c rest

-- strings.Join(xs, ",")
unfoldable pub join : List String → String
join [] = ""
join (x ∷ []) = x
join (x ∷ y ∷ xs) = str_append x (str_append "," (join (y ∷ xs)))

unfoldable pub char_at_or : Char → ℕ → String → Char
char_at_or d i String.[] = d
char_at_or d zero (String.◌∷◌ c s) = c
char_at_or d (suc i) (String.◌∷◌ c s) = char_at_or d i s

-- strings.ToLower
unfoldable pub to_lower : String → String
unfolding char_at_or
to_lower String.[] = ""
to_lower (String.◌∷◌ c s) =
    let n = code c in
    let lower =
      if leb 65 n && leb n 90 then char_at_or c (n - 65) "abcdefghijklmnopqrstuvwxyz" else c in
    String.◌∷◌ lower (to_lower s)

-- The items that are left after `TrimSpace`, without the empty ones.
unfoldable pub trimmed_items : List String → List String
unfolding trim_space
trimmed_items [] = []
trimmed_items (x ∷ xs) =
    let item = trim_space x in
    let rest = trimmed_items xs in if item == "" then rest else item ∷ rest

-- The ten digits.
abbrev pub digit_text : ℕ → String
digit_text d = String.◌∷◌ (char_at_or "0" d "0123456789") ""

-- The decimal digits of a number; twenty are enough for 64 bits.
unfoldable pub digits_of : ℕ → ℕ → String
digits_of zero n = ""
digits_of (suc fuel) n =
    let rest = digits_of fuel (n / 10) in
    if ltb n 10 then digit_text n else str_append rest (digit_text (n % 10))

-- strconv.Itoa
unfoldable pub itoa : ℤ → String
unfolding digits_of
itoa (pos n) = digits_of 20 n
itoa (negsuc n) = str_append "-" (digits_of 20 (suc n))

abbrev pub is_digit : Char → Bool
is_digit c = leb 48 (code c) && leb (code c) 57

-- The value of decimal digits that follow `acc`; `none` if there is another character.
unfoldable pub digits_value : ℕ → String → Option ℕ
digits_value acc String.[] = some acc
digits_value acc (String.◌∷◌ c s) =
    let rest = digits_value (acc * 10 + (code c - 48)) s in if is_digit c then rest else none

unfoldable pub unsigned_value : String → Option ℕ
unfolding digits_value
unsigned_value String.[] = none
unsigned_value (String.◌∷◌ c s) = digits_value 0 (String.◌∷◌ c s)

abbrev pub positive_in_range : Option ℕ → Option ℤ
positive_in_range none = none
positive_in_range (some n) = if ltb n 9223372036854775808 then some (pos n) else none

abbrev pub negative_in_range : Option ℕ → Option ℤ
negative_in_range none = none
negative_in_range (some n) = if leb n 9223372036854775808 then some (opposite n) else none

-- strconv.ParseInt(s, 10, 64), and Atoi
unfoldable pub parse_int : String → Option ℤ
unfolding unsigned_value
parse_int String.[] = none
parse_int (String.◌∷◌ c s) =
    if code c == 45
    then negative_in_range (unsigned_value s)
    else if code c == 43
    then positive_in_range (unsigned_value s)
    else positive_in_range (unsigned_value (String.◌∷◌ c s))

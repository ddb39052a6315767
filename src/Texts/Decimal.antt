-- ===== src/Texts/Decimal.antt =====
-- A number that is written in decimal digits is read again: `Itoa` and `ParseInt` of Go's `strconv`.
use Prim.Native.Char.{Char, code}
use Prim.Native.String.{◌++◌ as str_append}
use Prim.Native.String.append
use text.Mathlib.TextLemmas.{append_assoc as text_assoc}
use evsys.Common.{
  Bool-cases, IsInt64, String, ap, arith, false, if_false, if_true, inl, inr, int_has_eq, ltb,
  nat_has_eq, negsuc, none, pos, refl, some, string_has_eq, suc, sym, true, zero, ℕ, ℤ, ◌%◌, ◌*◌,
  ◌+◌, ◌-◌, ◌/◌, ◌<◌, ◌==◌, ◌∙◌, ◌≡◌, ◌≤◌,
}
use evsys.Texts.{
  char_at_or, digit_text, digits_of, digits_value, is_digit, itoa, parse_int, unsigned_value,
}

abbrev pow10 : ℕ → ℕ
pow10 zero = 1
pow10 (suc f) = 10 * pow10 f

abbrev nth_digit : ℕ → Char
nth_digit d = char_at_or "0" d "0123456789"

digit_code : (d : ℕ) → d < 10 → code (nth_digit d) ≡ 48 + d
unfolding char_at_or
digit_code zero h = refl
digit_code (suc zero) h = refl
digit_code (suc (suc zero)) h = refl
digit_code (suc (suc (suc zero))) h = refl
digit_code (suc (suc (suc (suc zero)))) h = refl
digit_code (suc (suc (suc (suc (suc zero))))) h = refl
digit_code (suc (suc (suc (suc (suc (suc zero)))))) h = refl
digit_code (suc (suc (suc (suc (suc (suc (suc zero))))))) h = refl
digit_code (suc (suc (suc (suc (suc (suc (suc (suc zero)))))))) h = refl
digit_code (suc (suc (suc (suc (suc (suc (suc (suc (suc zero))))))))) h = refl
digit_code (suc (suc (suc (suc (suc (suc (suc (suc (suc (suc d)))))))))) h = absurd (omega arith)

is_digit_between : (c : Char) → 48 ≤ code c → code c < 58 → is_digit c ≡ true
is_digit_between c low high = ground arith

digit_then :
    (acc d : ℕ) (c : Char) (rest : String)
    → code c ≡ 48 + d
    → d < 10
    → digits_value acc (String.◌∷◌ c rest) ≡ digits_value (acc * 10 + d) rest
unfolding digits_value
digit_then acc d c rest e h =
    let is_d : is_digit c ≡ true = is_digit_between c (omega arith) (omega arith) in
    let same : acc * 10 + (code c - 48) ≡ acc * 10 + d = omega arith in
    if_true _ none is_d ∙ ap (λ n. digits_value n rest) same

append_digit :
    (acc d : ℕ) (rest : String)
    → d < 10
    → digits_value acc (str_append (digit_text d) rest) ≡ digits_value (acc * 10 + d) rest
append_digit acc d rest h =
    ap (digits_value acc)
      (append.cons (nth_digit d) "" rest ∙ ap (String.◌∷◌ (nth_digit d)) (append.nil rest))
    ∙ digit_then acc d (nth_digit d) rest (digit_code d h) h

-- The digits of n give n back, whatever follows.
digits_value-digits_of :
    (fuel n : ℕ) (rest : String)
    → n < pow10 fuel
    → digits_value 0 (str_append (digits_of fuel n) rest) ≡ digits_value n rest
unfolding digits_of
digits_value-digits_of zero n rest h =
    ap (digits_value 0) (append.nil rest) ∙ ap (λ k. digits_value k rest) (omega arith)
digits_value-digits_of (suc fuel) n rest h = elim (Bool-cases (ltb n 10)) [
  | inl small ↦
      ap (λ t. digits_value 0 (str_append t rest)) (if_true _ _ small)
      ∙ append_digit 0 n rest (ground arith)
      ∙ ap (λ k. digits_value k rest) (omega arith)
  | inr large ↦
      ap (λ t. digits_value 0 (str_append t rest)) (if_false _ _ large)
      ∙ ap (digits_value 0) (text_assoc (digits_of fuel (n / 10)) (digit_text (n % 10)) rest)
      ∙ digits_value-digits_of fuel (n / 10) (str_append (digit_text (n % 10)) rest) (omega arith)
      ∙ append_digit (n / 10) (n % 10) rest (omega arith)
      ∙ ap (λ k. digits_value k rest) (omega arith)
]

append_nothing : (s : String) → str_append s "" ≡ s
append_nothing String.[] = append.nil ""
append_nothing (String.◌∷◌ c s) = append.cons c s "" ∙ ap (String.◌∷◌ c) (append_nothing s)

value_of_digits : (n : ℕ) → n < pow10 20 → digits_value 0 (digits_of 20 n) ≡ some n
unfolding digits_value
value_of_digits n h =
    ap (digits_value 0) (sym (append_nothing (digits_of 20 n))) ∙ digits_value-digits_of 20 n "" h

-- A text with a value other than 0 has digits, the first of them no sign.
unsigned_of_value :
    (s : String) (n : ℕ) → digits_value 0 s ≡ some (suc n) → unsigned_value s ≡ some (suc n)
unfolding digits_value unsigned_value
unsigned_of_value String.[] n h = ground arith
unsigned_of_value (String.◌∷◌ c s) n h = h

first_is_digit :
    (c : Char) (s : String) (n : ℕ) → digits_value 0 (String.◌∷◌ c s) ≡ some n → is_digit c ≡ true
unfolding digits_value
first_is_digit c s n h = ground arith

no_sign : (c : Char) → is_digit c ≡ true → ((code c == 45) ≡ false) × ((code c == 43) ≡ false)
no_sign c h = ground arith

positive_read :
    (s : String) (n : ℕ)
    → digits_value 0 s ≡ some (suc n)
    → suc n < 9223372036854775808
    → parse_int s ≡ some (pos (suc n))
unfolding parse_int
positive_read String.[] n h low = ground (arith, unsigned_of_value String.[] n h)
positive_read (String.◌∷◌ c s) n h low =
    let (no_minus, no_plus) = no_sign c (first_is_digit c s (suc n) h) in
    rw (no_minus, no_plus, unsigned_of_value (String.◌∷◌ c s) n h) (ground arith)

minus_read :
    (s : String) (n : ℕ)
    → digits_value 0 s ≡ some (suc n)
    → suc n ≤ 9223372036854775808
    → parse_int (String.◌∷◌ "-" s) ≡ some (negsuc n)
unfolding parse_int
minus_read s n h low = rw (unsigned_of_value s n h) (ground arith)

zero_read : parse_int (digits_of 20 0) ≡ some (pos 0)
unfolding parse_int digits_of char_at_or
zero_read = refl

-- Every number of 64 bits that is written with `Itoa` is read again.
pub parse_int-itoa : (z : ℤ) → IsInt64 z → parse_int (itoa z) ≡ some z
unfolding itoa
parse_int-itoa (pos zero) h = zero_read
parse_int-itoa (pos (suc n)) h =
    positive_read (digits_of 20 (suc n)) n (value_of_digits (suc n) (omega arith)) h.0
parse_int-itoa (negsuc n) h =
    ap parse_int (
      append.cons "-" "" (digits_of 20 (suc n))
      ∙ ap (String.◌∷◌ "-") (append.nil (digits_of 20 (suc n))))
    ∙ minus_read (digits_of 20 (suc n)) n (value_of_digits (suc n) (omega arith)) h.1

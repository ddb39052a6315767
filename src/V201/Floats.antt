-- ===== src/V201/Floats.antt =====
-- The conversions between `int` and `float64` of server/protocol_adapter.go. A float64 is given by its
-- whole part: a sampled value is read only through `int(…)`, which drops the rest.
use evsys.Common.{
  ap, arith, if_true, if◌then◌else◌, int64, int64_of_IsInt64, ltb, nat_eq, negsuc, opposite, pos,
  suc, zero, ℕ, ℤ, ◌%◌, ◌&&◌, ◌*◌, ◌+◌, ◌/◌, ◌<◌, ◌||◌, ◌∙◌, ◌≡◌,
}

abbrev pub two_53 : ℕ
two_53 = 9007199254740992

-- The multiple of the unit that is nearest, the even one of two.
unfoldable pub round_to : ℕ → ℕ → ℕ
round_to unit n =
    let q = n / unit in
    let twice = 2 * (n % unit) in
    if ltb twice unit || (nat_eq twice unit && nat_eq (q % 2) 0) then q * unit else (q + 1) * unit

-- With 53 significant bits; the unit is doubled while the number is too large for it.
unfoldable pub nearest : ℕ → ℕ → ℕ → ℕ
unfolding round_to
nearest zero unit n = round_to unit n
nearest (suc fuel) unit n =
    let rest = nearest fuel (2 * unit) n in if ltb n (two_53 * unit) then round_to unit n else rest

-- Ten more doublings reach 2 ^ 64, which no `int` exceeds.
unfoldable pub float_of_ℕ : ℕ → ℕ
unfolding nearest
float_of_ℕ n = if ltb n two_53 then n else nearest 10 2 n

-- float64(n)
unfoldable pub float64 : ℤ → ℤ
unfolding float_of_ℕ
float64 (pos n) = pos (float_of_ℕ n)
float64 (negsuc n) = opposite (float_of_ℕ (suc n))

-- int(x); what is out of range is the machine's affair, and wraps here.
unfoldable pub int_of_float : ℤ → ℤ
unfolding int64
int_of_float x = int64 x

-- Below 2 ^ 53 both ways are exact.
pub int_of_float-float64 : (n : ℕ) → n < two_53 → int_of_float (float64 (pos n)) ≡ pos n
unfolding int_of_float float64 float_of_ℕ
int_of_float-float64 n small =
    ap (λ m. int64 (pos m)) (if_true n (nearest 10 2 n) (ground arith))
    ∙ int64_of_IsInt64 (pos n) (ground arith)

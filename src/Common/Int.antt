-- ===== src/Common/Int.antt =====
-- Go's `int` is a 64-bit integer. Its values are integers here; `int64` is the wrap-around that the
-- machine applies to the result of an operation.
use Prim.Native.Nat.{ℕ, suc, ◌+◌, ◌-◌, ◌*◌, ◌/◌, ◌%◌, ◌≤◌, ◌<◌}
use mathlib.Core.Path.{◌≡◌}
use mathlib.Core.Logic.{◌↔◌, ◌⊎◌, ◌≢◌, inl, inr}
use mathlib.Core.Bool.{Bool, true, false}
use native.Mathlib.Omega.{arith}
use evsys.Common.Tests.{ltb, leb, nat_eq, Bool-cases, if◌then◌else◌, Eq}

-- `negsuc n` is -(n + 1).
pub data ℤ : Type 0 where
  pos : ℕ → ℤ
  negsuc : ℕ → ℤ

abbrev pub pos_part : ℤ → ℕ
pos_part (pos n) = n
pos_part (negsuc n) = 0

abbrev pub neg_part : ℤ → ℕ
neg_part (pos n) = 0
neg_part (negsuc n) = suc n

-- a - b, as an integer.
abbrev pub sub_ℕ : ℕ → ℕ → ℤ
sub_ℕ a b = if leb b a then pos (a - b) else negsuc (b - a - 1)

infixl 65 ◌+ℤ◌ ◌-ℤ◌
unfoldable pub ◌+ℤ◌ : ℤ → ℤ → ℤ
a +ℤ b = sub_ℕ (pos_part a + pos_part b) (neg_part a + neg_part b)

unfoldable pub ◌-ℤ◌ : ℤ → ℤ → ℤ
a -ℤ b = sub_ℕ (pos_part a + neg_part b) (neg_part a + pos_part b)

-- -n, as an integer.
abbrev pub opposite : ℕ → ℤ
opposite n = sub_ℕ 0 n

abbrev pub mul_ℤ : ℤ → ℤ → ℤ
mul_ℤ (pos a) (pos b) = pos (a * b)
mul_ℤ (pos a) (negsuc b) = opposite (a * suc b)
mul_ℤ (negsuc a) (pos b) = opposite (suc a * b)
mul_ℤ (negsuc a) (negsuc b) = pos (suc a * suc b)

-- Go's division rounds towards 0.
abbrev pub quot_ℤ : ℤ → ℕ → ℤ
quot_ℤ (pos a) d = pos (a / d)
quot_ℤ (negsuc a) d = opposite (suc a / d)

infix 50 ◌≤ℤ◌ ◌<ℤ◌
abbrev pub ◌≤ℤ◌ : ℤ → ℤ → Type 0
a ≤ℤ b = pos_part a + neg_part b ≤ pos_part b + neg_part a

abbrev pub ◌<ℤ◌ : ℤ → ℤ → Type 0
a <ℤ b = pos_part a + neg_part b < pos_part b + neg_part a

abbrev pub ltb_ℤ : ℤ → ℤ → Bool
ltb_ℤ a b = ltb (pos_part a + neg_part b) (pos_part b + neg_part a)

abbrev pub leb_ℤ : ℤ → ℤ → Bool
leb_ℤ a b = leb (pos_part a + neg_part b) (pos_part b + neg_part a)

abbrev pub int_eq : ℤ → ℤ → Bool
int_eq (pos m) (pos n) = nat_eq m n
int_eq (negsuc m) (negsuc n) = nat_eq m n
int_eq (pos m) (negsuc n) = false
int_eq (negsuc m) (pos n) = false

pub int_eq_iff : (a b : ℤ) → (int_eq a b ≡ true) ↔ (a ≡ b)
int_eq_iff a b = ground arith

instance abbrev pub int_has_eq : Eq ℤ
int_has_eq = record { beq = int_eq; beq_iff = int_eq_iff }

abbrev two_64 : ℕ
two_64 = 18446744073709551616

abbrev two_63 : ℕ
two_63 = 9223372036854775808

-- The residue modulo 2^64 that the machine keeps.
abbrev word_of : ℤ → ℕ
word_of (pos n) = n % two_64
word_of (negsuc n) = two_64 - 1 - n % two_64

unfoldable pub int64 : ℤ → ℤ
int64 z = let w = word_of z in if ltb w two_63 then pos w else negsuc (two_64 - 1 - w)

-- A value of the type `int`.
abbrev pub IsInt64 : ℤ → Type 0
IsInt64 z = (pos_part z < 9223372036854775808) × (neg_part z ≤ 9223372036854775808)

-- A result in range is kept.
pub int64_of_IsInt64 : (z : ℤ) → IsInt64 z → int64 z ≡ z
unfolding int64
int64_of_IsInt64 z h = ground arith

-- Any result is brought into range.
pub int64-IsInt64 : (z : ℤ) → IsInt64 (int64 z)
unfolding int64
int64-IsInt64 z = ground arith

pub int-cases : (a b : ℤ) → (a ≡ b) ⊎ (a ≢ b)
int-cases a b = elim (Bool-cases (int_eq a b)) [
  | inl same ↦ inl ((int_eq_iff a b).0 same)
  | inr ne ↦ inr (λ e. ground (arith, int_eq_iff a b))
]

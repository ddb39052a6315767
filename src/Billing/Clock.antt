-- ===== src/Billing/Clock.antt =====
-- `time.Parse("15:04", s)`, which entity/payment_plan.go uses: one or two digits for the hour, two
-- for the minute, and nothing after them. The result is the minute of the day.
use Prim.Native.Char.{Char, code}
use Prim.Native.String.{[], ◌∷◌}
use evsys.Common.{
  Bool, Option, String, if◌then◌else◌, leb, ltb, nat_eq, none, some, ℕ, ◌&&◌, ◌*◌, ◌+◌, ◌-◌,
}

abbrev is_digit : Char → Bool
is_digit c = leb 48 (code c) && leb (code c) 57

abbrev digit : Char → ℕ
digit c = code c - 48

abbrev minutes_after : ℕ → String → Option ℕ
minutes_after hour (colon ∷ a ∷ b ∷ []) =
    let minute = digit a * 10 + digit b in
    if nat_eq (code colon) 58 && is_digit a && is_digit b && ltb hour 24 && ltb minute 60
    then some (hour * 60 + minute)
    else none
minutes_after hour _ = none

abbrev second_digit : ℕ → String → Option ℕ
second_digit hour [] = none
second_digit hour (c ∷ rest) =
    if is_digit c then minutes_after (hour * 10 + digit c) rest else minutes_after hour (c ∷ rest)

unfoldable pub minute_of_day : String → Option ℕ
minute_of_day [] = none
minute_of_day (c ∷ rest) = if is_digit c then second_digit (digit c) rest else none

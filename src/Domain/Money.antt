-- ===== src/Domain/Money.antt =====
-- Monetary parsing (tandem/domain/money.py). A finite `Decimal` is its sign, its coefficient and
-- its number of decimal places (a positive exponent is multiplied out); a parsed amount is its
-- number of cents, so that the two zeros are one.
pub mod Rounding
use tandem_interface_ai.Prelude.{
  ℕ, zero, suc, ◌+◌, ◌*◌, ◌/◌, ◌%◌, ◌^◌, Bool, true, false, Option, none, some, ltb, if◌then◌else◌,
}
use tandem_interface_ai.Prelude.Int.{ℤ, pos, negsuc}

pub data Decimal : Type 0 where
  finite : Bool → ℕ → ℕ → Decimal
  infinite : Decimal
  not_a_number : Decimal

-- What a caller may pass. A float, a text or another value is given by what `Decimal` reads from
-- its text, if it reads a number there.
pub data MoneyInput : Type 0 where
  boolean : Bool → MoneyInput
  decimal : Decimal → MoneyInput
  float : Bool → Option Decimal → MoneyInput
  other : Option Decimal → MoneyInput

-- `MAX_MONEY`, in cents
abbrev pub max_money : ℕ
max_money = 999999999999999999

-- `n / d` rounded to an integer, ties to even.
unfoldable pub round_half_even : ℕ → ℕ → ℕ
round_half_even n d =
    let q = n / d in
    let r = n % d in if ltb (2 * r) d then q else if ltb d (2 * r) then q + 1 else q + q % 2

abbrev pub signed : Bool → ℕ → ℤ
signed false n = pos n
signed true zero = pos zero
signed true (suc n) = negsuc n

-- `abs(amount) > MAX_MONEY`. `abs` rounds to the 28 digits of the default context, ties to even, so
-- that what lies above the maximum by at most half of the 28th digit (5 / 10 ^ 13) is not seen.
abbrev pub exceeds_max : ℕ → ℕ → Bool
exceeds_max coefficient places =
    ltb ((max_money * 100000000000 + 5) * 10 ^ places) (coefficient * 100 * 100000000000)

-- From a `Decimal`: finite, in range, quantized to the cent.
unfoldable pub quantize : Decimal → Option ℤ
quantize infinite = none
quantize not_a_number = none
quantize (finite negative coefficient places) =
    if exceeds_max coefficient places
    then none
    else some (signed negative (round_half_even (coefficient * 100) (10 ^ places)))

quantize_read : Option Decimal → Option ℤ
unfolding quantize
quantize_read none = none
quantize_read (some d) = quantize d

-- `none` stands for the `ValueError`. The Boolean of a float is whether it is finite.
unfoldable pub parse_money : MoneyInput → Option ℤ
unfolding quantize quantize_read
parse_money (boolean b) = none
parse_money (decimal d) = quantize d
parse_money (float false d) = none
parse_money (float true d) = quantize_read d
parse_money (other d) = quantize_read d

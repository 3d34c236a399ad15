-- ===== src/Core/Common/Json/Equal.antt =====
-- Python's `==` on the values that `freeze_json` returns: Booleans, integers and floats compare as
-- numbers, and everything else by its shape.
use digital_colleagues.Base.{
  ℕ, suc, ◌+◌, ◌-◌, ◌*◌, ◌/◌, ◌%◌, Bool, true, false, not, ◌&&◌, ◌||◌, Option, none, some, ◌==◌,
  nat_eq, string_eq, option_eq, list_eq, if◌then◌else◌,
}
use Prim.Native.Nat.{◌^◌}
use digital_colleagues.Core.Common.Json.{
  ℤ, pos, negsuc, Value, null, text, boolean, integer, float, frozen, mapping, array, Values, end,
  item, Entries, empty, entry, FrozenJsonObject,
}

-- A finite number, as its sign and its magnitude in units of the smallest float, `2 ^ -1074`.
record Number : Type 0 where
  negative : Bool
  units : ℕ

-- The units of a float: a subnormal one has the exponent 0 and no leading bit.
float_units : ℕ → ℕ
float_units bits =
    let exponent = bits / 2 ^ 52 % 2 ^ 11 in
    let fraction = bits % 2 ^ 52 in
    if exponent == 0 then fraction else (fraction + 2 ^ 52) * 2 ^ (exponent - 1)

integer_number : ℤ → Number
integer_number (pos n) = record { negative = false; units = n * 2 ^ 1074 }
integer_number (negsuc n) = record { negative = true; units = suc n * 2 ^ 1074 }

float_number : ℕ → Number
unfolding float_units
float_number bits = record { negative = bits / 2 ^ 63 % 2 == 1; units = float_units bits }

number_of : Value → Option Number
unfolding integer_number float_number
number_of (boolean true) = some (integer_number (pos 1))
number_of (boolean false) = some (integer_number (pos 0))
number_of (integer n) = some (integer_number n)
number_of (float bits) = some (float_number bits)
number_of value = none

same_sign : Bool → Bool → Bool
same_sign true other = other
same_sign false other = not other

-- Zero has no sign.
same_number : Number → Number → Bool
unfolding same_sign
same_number one two =
    one.units == two.units && (one.units == 0 || same_sign one.negative two.negative)

compare_numbers : Option Number → Option Number → Bool
unfolding same_number
compare_numbers (some one) (some two) = same_number one two
compare_numbers _ _ = false

unfoldable mutual
  unfolding compare_numbers number_of

  pub same_value : Value → Value → Bool
  same_value null null = true
  same_value (text one) (text two) = one == two
  same_value (frozen one) (frozen two) = same_entries one two
  same_value (mapping one) (mapping two) = same_entries one two
  same_value (array one) (array two) = same_values one two
  same_value one two = compare_numbers (number_of one) (number_of two)

  pub same_values : Values → Values → Bool
  same_values end end = true
  same_values (item one ones) (item two twos) = same_value one two && same_values ones twos
  same_values _ _ = false

  pub same_entries : Entries → Entries → Bool
  same_entries empty empty = true
  same_entries (entry key one ones) (entry other two twos) =
      key == other && same_value one two && same_entries ones twos
  same_entries _ _ = false

-- `FrozenJsonObject.__eq__`, which the dataclass generates
unfoldable pub same_object : FrozenJsonObject → FrozenJsonObject → Bool
unfolding same_entries
same_object one two = same_entries one.as_entries two.as_entries

-- ===== src/App/ParseNumber.antt =====
-- app/ParseNumber.hpp: a number of type `int` at the front of a text.
pub mod RoundTrip
use forgechain.Prelude.{
  ℕ, ◌+◌, ◌-◌, ◌*◌, ◌^◌, Bool, ◌&&◌, Option, none, some, List, [], ◌∷◌, Bytes, ltb, leb, ◌==◌,
  if◌then◌else◌,
}
use forgechain.Prelude.Int.{ℤ, pos, negsuc}

abbrev pub is_digit : ℕ → Bool
is_digit b = leb b'0' b && leb b b'9'

-- The value of the digits in front, behind others of that value.
unfoldable pub value : ℕ → Bytes → ℕ
value acc [] = acc
value acc (b ∷ bs) = let rest = value (acc * 10 + (b - b'0')) bs in if is_digit b then rest else acc

-- `std::from_chars` for base 10: a text without a digit in front holds no number.
unfoldable pub magnitude : Bytes → Option ℕ
unfolding value
magnitude [] = none
magnitude (b ∷ bs) = if is_digit b then some (value 0 (b ∷ bs)) else none

abbrev pub positive : Option ℕ → Option ℤ
positive none = none
positive (some v) = if ltb v (2 ^ 31) then some (pos v) else none

abbrev pub negative : Option ℕ → Option ℤ
negative none = none
negative (some v) =
    if v == 0 then some (pos 0) else if leb v (2 ^ 31) then some (negsuc (v - 1)) else none

unfoldable pub parse_number : Bytes → Option ℤ
unfolding magnitude
parse_number [] = none
parse_number (b ∷ bs) = if b == b'-' then negative (magnitude bs) else positive (magnitude (b ∷ bs))

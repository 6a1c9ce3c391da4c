-- ===== src/Crypto/Hex.antt =====
-- crypto/Hash.cpp: `to_hex`, `hex_digit_value` and `from_hex`.
use forgechain.Prelude.{
  ℕ, ◌+◌, ◌-◌, ◌*◌, ◌/◌, ◌%◌, ◌<◌, ◌≡◌, refl, ap, ◌&&◌, Option, none, some, [], ◌∷◌, arith, Bytes,
  All, leb, if◌then◌else◌,
}

infixl 5 ◌>>=◌
abbrev ◌>>=◌ : {A B : Type 0} → Option A → (A → Option B) → Option B
none >>= f = none
some a >>= f = f a

-- `hex_chars[v]` for a value below 16
hex_char : ℕ → ℕ
hex_char v = if leb v 9 then b'0' + v else b'a' + (v - 10)

-- `(byte >> 4) & 0x0F` and `byte & 0x0F`
unfoldable pub to_hex : Bytes → Bytes
unfolding hex_char
to_hex [] = []
to_hex (byte ∷ rest) = hex_char (byte / 16 % 16) ∷ hex_char (byte % 16) ∷ to_hex rest

pub hex_digit_value : ℕ → Option ℕ
hex_digit_value c =
    if leb b'0' c && leb c b'9'
    then some (c - b'0')
    else if leb b'a' c && leb c b'f'
    then some (c - b'a' + 10)
    else if leb b'A' c && leb c b'F'
    then some (c - b'A' + 10)
    else none

-- The loop takes two characters a round; an odd length is refused before it.
pub from_hex : Bytes → Option Bytes
unfolding hex_digit_value
from_hex [] = some []
from_hex (c ∷ []) = none
from_hex (h ∷ l ∷ rest) = do
  high ← hex_digit_value h
  low ← hex_digit_value l
  tail ← from_hex rest
  some ((high * 16 + low) ∷ tail)

hex_digit_value-hex_char : (v : ℕ) → v < 16 → hex_digit_value (hex_char v) ≡ some v
unfolding hex_digit_value hex_char
hex_digit_value-hex_char v h = ground arith

-- Any sequence of bytes is read back from its hexadecimal text.
pub from_hex-to_hex : (bs : Bytes) → All (λ b. b < 256) bs → from_hex (to_hex bs) ≡ some bs
unfolding to_hex from_hex
from_hex-to_hex [] h = refl
from_hex-to_hex (b ∷ bs) (hb, hbs) =
    rw
      (
        hex_digit_value-hex_char (b / 16 % 16) (omega arith),
        hex_digit_value-hex_char (b % 16) (omega arith),
        from_hex-to_hex bs hbs,
      )
      (ap (λ v. some (v ∷ bs)) (omega arith))

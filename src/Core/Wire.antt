-- ===== src/Core/Wire.antt =====
-- The byte layout that every `serialize` and `deserialize` of the program shares: little-endian
-- integers (the source copies the host's representation, docs/protocol.md fixes it as
-- little-endian) and length-prefixed fields. A reader holds the bytes from its offset on.
pub mod Laws
use forgechain.Prelude.{
  ℕ, zero, suc, ◌+◌, ◌*◌, ◌/◌, ◌%◌, ◌^◌, ◌<◌, ◌≡◌, Bool, Option, none, some, List, [], ◌∷◌, ◌++◌,
  Bytes, length, take, drop, ltb, if◌then◌else◌,
}

infixl 5 ◌>>=◌
abbrev pub ◌>>=◌ {ℓ κ} : {A : Type ℓ} {B : Type κ} → Option A → (A → Option B) → Option B
none >>= f = none
some a >>= f = f a

-- The `n` bytes of an unsigned integer.
unfoldable pub to_le : ℕ → ℕ → Bytes
to_le zero v = []
to_le (suc n) v = v % 256 ∷ to_le n (v / 256)

unfoldable pub from_le : Bytes → ℕ
from_le [] = 0
from_le (b ∷ bs) = b + 256 * from_le bs

-- `if (payload.size() < offset + n) return nullopt`, then the `n` bytes there.
unfoldable pub read_bytes : ℕ → Bytes → Option (Bytes × Bytes)
read_bytes n rest = if ltb (length rest) n then none else some (take n rest, drop n rest)

unfoldable pub read_uint : ℕ → Bytes → Option (ℕ × Bytes)
read_uint n rest = do (bs, rest') ← read_bytes n rest; some (from_le bs, rest')

-- A `uint32_t` length, then so many bytes.
unfoldable pub write_field : Bytes → Bytes
write_field bs = to_le 4 (length bs % 2 ^ 32) ++ bs

unfoldable pub read_field : Bytes → Option (Bytes × Bytes)
read_field rest = do (n, rest') ← read_uint 4 rest; read_bytes n rest'

-- `if (payload.size() != offset) return nullopt`
abbrev pub at_end {ℓ} : {A : Type ℓ} → Bytes → A → Option A
at_end [] a = some a
at_end (b ∷ bs) a = none

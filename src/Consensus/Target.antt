-- ===== src/Consensus/Target.antt =====
-- `meets_target`: the leading zero bits of a hash.
pub mod Bound
use forgechain.Prelude.{
  ℕ, zero, suc, ◌+◌, ◌/◌, Bool, true, false, List, [], ◌∷◌, Bytes, bit_and, leb, ◌==◌,
  if◌then◌else◌,
}

-- The inner loop, with the rounds that are left: the count so far, and whether a one was found.
unfoldable pub scan_byte : ℕ → ℕ → ℕ → ℕ → ℕ × Bool
scan_byte zero byte mask result = (result, false)
scan_byte (suc rounds) byte mask result =
    let next = scan_byte rounds byte (mask / 2) (result + 1) in
    if bit_and byte mask == 0 then next else (result, true)

unfoldable pub scan_bytes : Bytes → ℕ → ℕ
unfolding scan_byte
scan_bytes [] result = result
scan_bytes (byte ∷ hash) result =
    let (count, found_one) = scan_byte 8 byte 0x80 result in
    let next = scan_bytes hash count in if found_one then count else next

unfoldable pub meets_target : Bytes → ℕ → Bool
unfolding scan_bytes
meets_target hash difficulty = leb difficulty (scan_bytes hash 0)

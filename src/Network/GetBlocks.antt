-- ===== src/Network/GetBlocks.antt =====
-- network/GetBlocks.hpp, network/GetBlocks.cpp: the payload of a GETBLOCKS message, a locator.
pub mod Laws
use forgechain.Prelude.{
  ℕ, zero, suc, ◌+◌, ◌*◌, ◌%◌, ◌^◌, Option, none, some, List, [], ◌∷◌, ◌++◌, Bytes, length, take,
  drop, ltb, ◌==◌, not, if◌then◌else◌,
}
use forgechain.Core.Wire.{to_le, read_uint, ◌>>=◌}

abbrev pub max_locator_hashes : ℕ
max_locator_hashes = 1028

-- The hashes one behind the other.
unfoldable pub concat : List Bytes → Bytes
concat [] = []
concat (hash ∷ hashes) = hash ++ concat hashes

unfoldable pub serialize_getblocks : List Bytes → Bytes
unfolding concat
serialize_getblocks locator = to_le 4 (length locator % 2 ^ 32) ++ concat locator

-- `count` times 32 bytes are copied.
unfoldable pub read_hashes : ℕ → Bytes → List Bytes
read_hashes zero bs = []
read_hashes (suc n) bs = take 32 bs ∷ read_hashes n (drop 32 bs)

-- The tests on the count that stands before the hashes.
unfoldable pub locator_of : Bytes → ℕ → Bytes → Option (List Bytes)
unfolding read_hashes
locator_of payload count bs =
    if ltb max_locator_hashes count
    then none
    else if not (length payload == count * 32 + 4)
    then none
    else some (read_hashes count bs)

unfoldable pub deserialize_getblocks : Bytes → Option (List Bytes)
unfolding locator_of
deserialize_getblocks payload = do (count, bs) ← read_uint 4 payload; locator_of payload count bs

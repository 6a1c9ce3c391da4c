-- ===== src/Core/BlockLocator.antt =====
-- core/BlockLocator: sparse hashes from the tip back to the genesis block, and the height of the
-- first one that a chain knows.
pub mod Match
pub mod Length
use forgechain.Prelude.{
  ℕ, zero, suc, ◌+◌, ◌-◌, ◌*◌, Option, none, some, List, [], ◌∷◌, Bytes, ltb, leb, ◌==◌,
  if◌then◌else◌,
}
use forgechain.Prelude.Outcome.{Outcome, ok, fault, ◌>>=◌}
use forgechain.Core.Block.{Block}
use forgechain.Core.Blockchain
use forgechain.Core.Blockchain.{Blockchain, find_height}

-- `if (hashes.size() >= 10) step *= 2;`, once a hash has been pushed
abbrev pub next_step : ℕ → ℕ → ℕ
next_step count step = if leb 10 (count + 1) then step * 2 else step

-- The heights that the loop visits, on fuel, with the hashes that are pushed already counted; the
-- genesis block comes last. `none` is that the fuel ran out.
unfoldable pub locator_heights : ℕ → ℕ → ℕ → ℕ → Option (List ℕ)
locator_heights fuel zero step count = some (0 ∷ [])
locator_heights zero (suc h) step count = none
locator_heights (suc fuel) (suc h) step count =
    let step' = next_step count step in
    let rest = locator_heights fuel (suc h - step') step' (count + 1) in
    if ltb (suc h) step'
    then some (suc h ∷ 0 ∷ [])
    else elim rest [ none ↦ none | some hs ↦ some (suc h ∷ hs) ]

-- `chain.at(height).hash_` for each height.
unfoldable pub hashes_at : Blockchain → List ℕ → Outcome (List Bytes)
hashes_at chain [] = ok []
hashes_at chain (h ∷ hs) = do
  block ← Blockchain.at chain h
  rest ← hashes_at chain hs
  ok (block.hash ∷ rest)

-- The fuel is the height of the tip: each round goes down by one at least.
unfoldable pub build_locator : Blockchain → Outcome (List Bytes)
unfolding locator_heights hashes_at
build_locator chain =
    let height = Blockchain.size chain - 1 in
    if Blockchain.size chain == 0
    then ok []
    else elim (locator_heights height height 1 0) [ none ↦ fault | some hs ↦ hashes_at chain hs ]

unfoldable pub find_locator_match : Blockchain → List Bytes → Option ℕ
find_locator_match chain [] = none
find_locator_match chain (hash ∷ locator) = elim (find_height chain hash) [
  | some index ↦ some index
  | none ↦ find_locator_match chain locator
]

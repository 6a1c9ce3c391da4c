-- ===== src/Core/BlockLocator/Length.antt =====
-- How many hashes a locator has: the last ten at most one by one, then at distances that double.
use forgechain.Prelude.{
  ℕ, zero, suc, ◌+◌, ◌-◌, ◌*◌, ◌^◌, ◌<◌, ◌≤◌, ◌≡◌, ◌≢◌, ◌==◌, inl, inr, some, List, [], ◌∷◌, Bytes,
  length, ltb, leb, arith, Bool-cases, Option-cases,
}
use mathlib.Core.Option.{some-injective}
use forgechain.Prelude.{ap, sym, ◌∙◌}
use forgechain.Prelude.Outcome.{ok, >>=-eq-ok, ok-injective}
use native.Mathlib.Nat.{pow-succ', mul_assoc}
use forgechain.Prelude.Powers.{pow-pos}
use forgechain.Core.Blockchain
use forgechain.Core.Blockchain.{Blockchain}
use forgechain.Core.BlockLocator.{next_step, locator_heights, hashes_at, build_locator}

-- One round: the end, or a shorter rest.
round :
    (fuel h step count : ℕ) {hs : List ℕ}
    → locator_heights (suc fuel) (suc h) step count ≡ some hs
    → (n : ℕ) → 2 ≤ n
    → ((rest : List ℕ)
        → next_step count step ≤ suc h
        → locator_heights fuel (suc h - next_step count step) (next_step count step) (count + 1)
          ≡ some rest
        → length rest + 1 ≤ n)
    → length hs ≤ n
unfolding locator_heights
round fuel h step count {hs} e n two shorter =
    let step' = next_step count step in
    elim (Bool-cases (ltb (suc h) step')) [
      | inl last ↦
          let whole : suc h ∷ 0 ∷ [] ≡ hs = some-injective _ _ (rw (last, locator_heights) at e) in
          omega (arith, ap length whole)
      | inr more ↦ elim (Option-cases (locator_heights fuel (suc h - step') step' (count + 1))) [
        | inl out ↦ cc (rw (more, out, locator_heights) at e)
        | inr (rest, found) ↦
            let whole : suc h ∷ rest ≡ hs =
              some-injective _ _ (rw (more, found, locator_heights) at e) in
            omega (arith, ap length whole, shorter rest (ground arith) found)
      ]
    ]

genesis_alone :
    (fuel step count : ℕ) {hs : List ℕ}
    → locator_heights fuel zero step count ≡ some hs
    → length hs ≡ 1
unfolding locator_heights
genesis_alone fuel step count e = sym (ap length (some-injective _ _ e))

no_fuel : (h step count : ℕ) {hs : List ℕ} → locator_heights zero (suc h) step count ≢ some hs
unfolding locator_heights
no_fuel h step count e = cc

double-pow : (step k : ℕ) → step * 2 ^ suc k ≡ step * 2 * 2 ^ k
double-pow step k = ap (λ n. step * n) (pow-succ' 2 k) ∙ sym (mul_assoc step 2 (2 ^ k))

-- From the tenth hash on the distance doubles each time.
doubling :
    (fuel h step count k : ℕ) {hs : List ℕ}
    → locator_heights fuel h step count ≡ some hs
    → 9 ≤ count
    → h < step * 2 ^ k
    → length hs ≤ k + 2
doubling fuel zero step count k e late small = omega (arith, genesis_alone fuel step count e)
doubling zero (suc h) step count k e late small = absurd (no_fuel h step count e)
doubling (suc fuel) (suc h) step count zero e late small =
    round fuel h step count e 2 (omega arith) (λ rest far _. absurd (ground arith))
doubling (suc fuel) (suc h) step count (suc k) e late small =
    let twice : next_step count step ≡ step * 2 = ground arith in
    let bound : suc h < next_step count step * 2 ^ k = rw (twice, ← double-pow step k) small in
    round fuel h step count e (suc k + 2) (omega arith) λ rest far found. omega (
      arith,
      doubling fuel (suc h - next_step count step) (next_step count step) (count + 1) k found
          (omega arith) (omega arith),
    )

-- Before that, hash by hash.
singly :
    (fuel h count k : ℕ) {hs : List ℕ}
    → locator_heights fuel h 1 count ≡ some hs
    → count ≤ 9
    → h < 2 ^ k
    → length hs + count ≤ k + 11
singly fuel zero count k e early small = omega (arith, genesis_alone fuel 1 count e)
singly zero (suc h) count k e early small = absurd (no_fuel h 1 count e)
singly (suc fuel) (suc h) count k e early small = elim (Bool-cases (leb 9 count)) [
  | inl late ↦
      omega (arith, doubling (suc fuel) (suc h) 1 count k e (ground arith) (omega arith), early)
  | inr few ↦
      let same : next_step count 1 ≡ 1 = ground arith in
      let bound : length _ ≤ k + 11 - count =
        round fuel h 1 count e (k + 11 - count) (omega arith) λ rest far found. omega (
          arith,
          singly fuel (suc h - 1) (count + 1) k (rw same at found) (ground arith) (omega arith),
        ) in
      omega arith
]

length-hashes_at :
    (chain : Blockchain) (hs : List ℕ) {xs : List Bytes}
    → hashes_at chain hs ≡ ok xs
    → length xs ≡ length hs
unfolding hashes_at
length-hashes_at chain [] e = sym (ap length (ok-injective _ _ e))
length-hashes_at chain (h ∷ hs) e =
    let (block, _, e') = >>=-eq-ok (Blockchain.at chain h) _ e in
    let (rest, found, e'') = >>=-eq-ok (hashes_at chain hs) _ e' in
    omega (arith, length-hashes_at chain hs found, ap length (ok-injective _ _ e''))

-- The locator of a chain of at most 2^k blocks has at most k + 11 hashes.
pub length-build_locator :
    (chain : Blockchain) (k : ℕ) {xs : List Bytes}
    → Blockchain.size chain ≤ 2 ^ k
    → build_locator chain ≡ ok xs
    → length xs ≤ k + 11
unfolding build_locator
length-build_locator chain k small e = elim (Bool-cases (Blockchain.size chain == 0)) [
  | inl empty ↦ omega (arith, ap length (ok-injective _ _ (rw (empty, build_locator) at e)))
  | inr some_block ↦
      let n = Blockchain.size chain - 1 in
      elim (Option-cases (locator_heights n n 1 0)) [
        | inl out ↦ cc (rw (some_block, out, build_locator) at e)
        | inr (hs, found) ↦
            let at : hashes_at chain hs ≡ ok _ = rw (some_block, found, build_locator) at e in
            omega (
              arith,
              length-hashes_at chain hs at,
              singly n n 0 k found (omega arith) (ground (arith, pow-pos k)),
            )
      ]
]

-- ===== src/Consensus/Mining.antt =====
-- The two overloads of `mine_block` in consensus/ProofOfWork.cpp.
pub mod Search
pub mod Rounds
use forgechain.Prelude.{
  ℕ, zero, suc, ◌+◌, ◌*◌, ◌%◌, Bool, true, false, ◌&&◌, Option, none, some, List, Bytes, add64,
  ◌==◌, if◌then◌else◌,
}
use forgechain.Prelude.Outcome.{Outcome, ok, fault}
use forgechain.Crypto.{OpenSsl}
use forgechain.Core.Transaction.{Transaction}
use forgechain.Core.Block
use forgechain.Core.Block.{Block, compute_hash}
use forgechain.Consensus.Target.{meets_target}
use forgechain.Consensus.Params.{max_nonce, cancel_check_interval, max_timestamp_bumps}

-- `should_stop`, if one is given: its answers, by the number of the call.
abbrev pub StopFlag : Type 0
StopFlag = Option (ℕ → Bool)

-- The variables of the cancellable loop, and how often `should_stop` was asked.
pub record Mining : Type 0 where
  pub nonce : ℕ
  pub timestamp_bumps : ℕ
  pub block : Block
  pub calls : ℕ

-- A round of the loop returns, or goes on.
pub data Round : Type 0 where
  returns : Option Block → Round
  continues : Mining → Round

-- `nonce % kCancelCheckInterval == 0 && should_stop`, and then its answer
abbrev pub is_asked : StopFlag → ℕ → Bool
is_asked none nonce = false
is_asked (some flag) nonce = nonce % cancel_check_interval == 0

abbrev pub answer : StopFlag → ℕ → Bool
answer none calls = false
answer (some flag) calls = flag calls

-- The block that a search starts from.
module _ ⦃ssl : OpenSsl⦄ where
  abbrev pub unmined : ℕ → Bytes → ℕ → ℕ → List Transaction → Block
  unmined version prev_hash timestamp difficulty transactions =
      record (Block.new version prev_hash timestamp transactions) { difficulty = difficulty }

  -- The block with a nonce, and with the hash that it then has.
  abbrev pub attempt : Block → ℕ → Block
  attempt block nonce =
      let tried = record block { nonce = nonce } in record tried { hash = compute_hash tried }

  -- The loop of the first overload, with the rounds that are left.
  unfoldable pub mine_nonces : ℕ → ℕ → ℕ → Block → Outcome Block
  mine_nonces zero nonce difficulty block = fault
  mine_nonces (suc rounds) nonce difficulty block =
      let next = mine_nonces rounds (nonce + 1) difficulty block in
      if meets_target (attempt block nonce).hash difficulty then ok (attempt block nonce) else next

  unfoldable pub mine_block : ℕ → Bytes → ℕ → ℕ → List Transaction → Outcome Block
  mine_block version prev_hash timestamp difficulty transactions =
      mine_nonces max_nonce 0 difficulty
        (unmined version prev_hash timestamp difficulty transactions)

  -- The end of a round whose hash did not meet the target.
  unfoldable pub advance : Mining → Round
  advance m =
      if m.nonce + 1 == max_nonce
      then if m.timestamp_bumps == max_timestamp_bumps
        then returns none
        else continues (record m {
          nonce = 0;
          timestamp_bumps = m.timestamp_bumps + 1;
          block = record (m.block) { nonce = m.nonce; timestamp = add64 m.block.timestamp 1 };
        })
      else continues
          (record m { nonce = m.nonce + 1; block = record (m.block) { nonce = m.nonce } })

  -- One round of the loop of the second overload.
  unfoldable pub mine_round : StopFlag → Mining → Round
  unfolding advance
  mine_round should_stop m =
      let asked = is_asked should_stop m.nonce in
      let tried = attempt m.block m.nonce in
      if asked && answer should_stop m.calls
      then returns none
      else if meets_target tried.hash m.block.difficulty
      then returns (some tried)
      else advance (record m { calls = if asked then m.calls + 1 else m.calls })

  -- The loop on fuel; `none` is that the fuel ran out.
  unfoldable pub mine_loop : ℕ → StopFlag → Mining → Option (Option Block)
  unfolding mine_round
  mine_loop zero should_stop m = none
  mine_loop (suc fuel) should_stop m = elim (mine_round should_stop m) [
    | returns result ↦ some result
    | continues next ↦ mine_loop fuel should_stop next
  ]

  -- A round for every nonce, before and after every bump of the timestamp.
  abbrev pub mining_rounds : ℕ
  mining_rounds = (max_timestamp_bumps + 1) * max_nonce

  unfoldable pub mine_block_until :
      ℕ → Bytes → ℕ → ℕ → List Transaction → StopFlag → Option (Option Block)
  unfolding mine_loop
  mine_block_until version prev_hash timestamp difficulty transactions should_stop =
      mine_loop mining_rounds should_stop (record {
        nonce = 0;
        timestamp_bumps = 0;
        block = unmined version prev_hash timestamp difficulty transactions;
        calls = 0;
      })

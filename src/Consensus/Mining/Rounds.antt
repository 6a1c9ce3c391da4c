-- ===== src/Consensus/Mining/Rounds.antt =====
-- The cancellable loop ends, and what it returns.
use forgechain.Prelude.{
  ℕ, zero, suc, ◌+◌, ◌-◌, ◌*◌, ◌^◌, ◌<◌, ◌≤◌, ◌≡◌, inl, inr, true, ◌&&◌, refl, ap, ◌∙◌, Option,
  none, some, List, Bytes, add64, ◌==◌, if◌then◌else◌, arith, subst, Bool-cases,
}
use forgechain.Crypto.{OpenSsl}
use forgechain.Core.Transaction.{Transaction}
use forgechain.Core.Block
use forgechain.Core.Block.{Block, compute_hash}
use forgechain.Consensus.Target.{meets_target}
use forgechain.Consensus.Params.{max_nonce, max_timestamp_bumps}
use forgechain.Consensus.Mining.{
  StopFlag, Mining, Round, returns, continues, is_asked, answer, unmined, attempt, advance,
  mine_round, mine_loop, mining_rounds, mine_block_until,
}

module _ ⦃ssl : OpenSsl⦄ where
  -- What a search keeps: the block is the one it started from, but for the nonce and the timestamp,
  -- which is the first one and the bumps.
  pub record IsMining (start : Block) (m : Mining) : Type 0 where
    pub kept : m.block ≡ record start { nonce = m.block.nonce; timestamp = m.block.timestamp }
    pub bumped : m.block.timestamp ≡ start.timestamp + m.timestamp_bumps
    pub few : m.timestamp_bumps ≤ max_timestamp_bumps
    pub in_range : m.nonce < max_nonce

  -- A block as the search must return it.
  pub record IsMined (start b : Block) : Type 0 where
    pub nonce : ℕ
    pub bumps : ℕ
    pub few : bumps ≤ max_timestamp_bumps
    pub in_range : nonce < max_nonce
    pub is_block : b ≡ attempt (record start { timestamp = start.timestamp + bumps }) nonce
    pub meets : meets_target (compute_hash b) start.difficulty ≡ true
    pub hashed : b.hash ≡ compute_hash b

  -- The rounds that are left.
  abbrev rounds_left : Mining → ℕ
  rounds_left m = (max_timestamp_bumps - m.timestamp_bumps) * max_nonce + (max_nonce - m.nonce)

  -- What a round of the loop does: it returns nothing or a mined block, or it leaves fewer rounds.
  data IsRound (start : Block) (left : ℕ) : Round → Type 0 where
    stopped : IsRound start left (returns none)
    mined : (b : Block) → IsMined start b → IsRound start left (returns (some b))
    moved :
        (next : Mining)
        → IsMining start next
        → suc (rounds_left next) ≡ left
        → IsRound start left (continues next)

  advance-IsRound :
      (start : Block) (m : Mining)
      → start.timestamp + max_timestamp_bumps < 2 ^ 64
      → IsMining start m
      → IsRound start (rounds_left m) (advance m)
  unfolding advance
  advance-IsRound start m room h = elim (Bool-cases (m.nonce + 1 == max_nonce)) [
    | inl e ↦ elim (Bool-cases (m.timestamp_bumps == max_timestamp_bumps)) [
      | inl f ↦ rw (advance, e, f) stopped
      | inr f ↦
          rw (advance, e, f)
            (moved _
              (record {
                kept =
                    ap
                      (λ (b : Block). record b {
                        nonce = m.nonce;
                        timestamp = add64 m.block.timestamp 1;
                      })
                      h.kept;
                bumped = ground (arith, h.bumped, h.few);
                few = ground (arith, h.few);
                in_range = omega arith;
              })
              (ground (arith, h.few)))
    ]
    | inr e ↦
        rw (advance, e)
          (moved _
            (record {
              kept =
                  ap (λ (b : Block). record b { nonce = m.nonce; timestamp = m.block.timestamp })
                    h.kept;
              bumped = h.bumped;
              few = h.few;
              in_range = ground (arith, h.in_range);
            })
            (ground (arith, h.in_range)))
  ]

  attempt-IsMined :
      (start : Block) (m : Mining)
      → IsMining start m
      → meets_target (attempt m.block m.nonce).hash m.block.difficulty ≡ true
      → IsMined start (attempt m.block m.nonce)
  unfolding compute_hash Block.serialize
  attempt-IsMined start m h met = record {
    nonce = m.nonce;
    bumps = m.timestamp_bumps;
    few = h.few;
    in_range = h.in_range;
    is_block =
        ap (λ (b : Block). attempt b m.nonce) h.kept
        ∙ ap (λ t. attempt (record start { timestamp = t }) m.nonce) h.bumped;
    meets =
        subst (λ d. meets_target (attempt m.block m.nonce).hash d ≡ true)
          (ap (λ (b : Block). b.difficulty) h.kept) met;
    hashed = refl;
  }

  mine_round-IsRound :
      (should_stop : StopFlag) (start : Block) (m : Mining)
      → start.timestamp + max_timestamp_bumps < 2 ^ 64
      → IsMining start m
      → IsRound start (rounds_left m) (mine_round should_stop m)
  unfolding mine_round
  mine_round-IsRound should_stop start m room h =
      elim (Bool-cases (is_asked should_stop m.nonce && answer should_stop m.calls)) [
        | inl e ↦ rw (mine_round, e) stopped
        | inr e ↦
            elim (Bool-cases (meets_target (attempt m.block m.nonce).hash m.block.difficulty)) [
              | inl f ↦ rw (mine_round, e, f) (mined _ (attempt-IsMined start m h f))
              | inr f ↦
                  rw (mine_round, e, f)
                    (advance-IsRound start
                      (record m {
                        calls = if is_asked should_stop m.nonce then m.calls + 1 else m.calls;
                      })
                      room
                      (record {
                        kept = h.kept;
                        bumped = h.bumped;
                        few = h.few;
                        in_range = h.in_range;
                      }))
            ]
      ]

  -- The loop's answer: nothing, or a mined block.
  pub data IsAnswer (start : Block) : Option (Option Block) → Type 0 where
    stopped : IsAnswer start (some none)
    mined : (b : Block) → IsMined start b → IsAnswer start (some (some b))

  IsAnswer-of :
      (fuel : ℕ) (should_stop : StopFlag) (start : Block) {left : ℕ} {r : Round}
      → IsRound start left r
      → ((next : Mining)
          → IsMining start next
          → suc (rounds_left next) ≡ left
          → IsAnswer start (mine_loop fuel should_stop next))
      → IsAnswer start (elim r [
        | returns result ↦ some result
        | continues next ↦ mine_loop fuel should_stop next
      ])
  IsAnswer-of fuel should_stop start IsRound.stopped go = IsAnswer.stopped
  IsAnswer-of fuel should_stop start (IsRound.mined b h) go = IsAnswer.mined b h
  IsAnswer-of fuel should_stop start (moved next k fewer) go = go next k fewer

  mine_loop-IsAnswer :
      (fuel : ℕ) (should_stop : StopFlag) (start : Block) (m : Mining)
      → start.timestamp + max_timestamp_bumps < 2 ^ 64
      → IsMining start m
      → rounds_left m ≤ fuel
      → IsAnswer start (mine_loop fuel should_stop m)
  unfolding mine_loop
  mine_loop-IsAnswer zero should_stop start m room h enough = absurd (omega (arith, h.in_range))
  mine_loop-IsAnswer (suc fuel) should_stop start m room h enough =
      (IsAnswer-of fuel should_stop start (mine_round-IsRound should_stop start m room h)
        (λ next k fewer. mine_loop-IsAnswer fuel should_stop start next room k (omega arith)))

  -- If no bump overflows the timestamp, the cancellable search ends within its rounds, whatever
  -- `should_stop` answers. It returns nothing, or a block that keeps every field of the one it
  -- started from but the nonce, which is below `kMaxNonce`, the timestamp, which is at most
  -- `kMaxTimestampBumps` later, and the hash, which is the block's own and meets the difficulty.
  pub mine_block_until-IsAnswer :
      (version : ℕ) (prev_hash : Bytes) (timestamp difficulty : ℕ) (transactions : List Transaction)
      (should_stop : StopFlag)
      → timestamp + max_timestamp_bumps < 2 ^ 64
      → IsAnswer
          (unmined version prev_hash timestamp difficulty transactions)
          (mine_block_until version prev_hash timestamp difficulty transactions should_stop)
  unfolding mine_block_until Block.new
  mine_block_until-IsAnswer version prev_hash timestamp difficulty transactions should_stop room =
      let start = unmined version prev_hash timestamp difficulty transactions in
      mine_loop-IsAnswer mining_rounds should_stop start
        (record { nonce = 0; timestamp_bumps = 0; block = start; calls = 0 }) room
        (record { kept = refl; bumped = omega arith; few = omega arith; in_range = omega arith })
        (omega arith)

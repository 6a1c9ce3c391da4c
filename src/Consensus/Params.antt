-- ===== src/Consensus/Params.antt =====
-- consensus/ConsensusParams.hpp and the constants of consensus/ProofOfWork.hpp.
use forgechain.Prelude.{ℕ, ◌-◌, ◌^◌}

pub record ConsensusParams : Type 0 where
  pub initial_difficulty : ℕ
  pub min_difficulty : ℕ
  pub target_block_time : ℕ
  pub retarget_interval : ℕ
  pub mtp_window : ℕ
  pub max_future_drift : ℕ

-- `kMainParams`
abbrev pub main_params : ConsensusParams
main_params = record {
  initial_difficulty = 18;
  min_difficulty = 18;
  target_block_time = 1;
  retarget_interval = 20;
  mtp_window = 11;
  max_future_drift = 120;
}

-- `kTestParams`
abbrev pub test_params : ConsensusParams
test_params = record {
  initial_difficulty = 4;
  min_difficulty = 1;
  target_block_time = 10;
  retarget_interval = 20;
  mtp_window = 11;
  max_future_drift = 120;
}

abbrev pub mining_reward : ℕ
mining_reward = 50

-- `kMaxNonce`
abbrev pub max_nonce : ℕ
max_nonce = 2 ^ 32 - 1

-- `kCancelCheckInterval`
abbrev pub cancel_check_interval : ℕ
cancel_check_interval = 0xffff

-- `kMaxTimestampBumps`
abbrev pub max_timestamp_bumps : ℕ
max_timestamp_bumps = 60

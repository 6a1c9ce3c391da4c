-- ===== src/Tests/Manager.antt =====
-- Theorems on the chain manager at concrete inputs.
use forgechain.Prelude.{
  ℕ, ◌+◌, ◌^◌, ◌<◌, ◌≡◌, ◌≢◌, refl, true, false, none, some, List, [], ◌∷◌, arith, Bytes, bytes_eq,
}
use forgechain.Prelude.Dict.{lookup, insert}
use forgechain.Prelude.Outcome.{ok, After, ok-injective}
use forgechain.Crypto.{double_sha_256, derive_address, verify}
use forgechain.Core.Wire
use forgechain.Core.Transaction.{has_valid_signature}
use forgechain.Core.Block
use forgechain.Core.Block.{Block, zero_hash, compute_hash}
use forgechain.Core.Blockchain
use forgechain.Core.Blockchain.{Blockchain, add_block, BlockValidation, classify_new_block}
use forgechain.Core.Blockchain.Index.{IsIndexed, hash_at}
use forgechain.Core.BlockLocator.{build_locator, find_locator_match}
use forgechain.Core.BlockLocator.Match.{find_locator_match-build_locator}
use forgechain.Core.Mempool.{Mempool, get_transactions_for_block}
use forgechain.Core.Ledger.{
  Ledger, apply_transaction, charge, withdraw, set_nonce, deposit, reverse_transaction,
}
use forgechain.Core.Ledger.Undo.{Restores}
use forgechain.Core.Ledger.Supply.{total}
use forgechain.Consensus.Params.{test_params}
use forgechain.Consensus.Target.{meets_target}
use forgechain.Consensus.Difficulty.{next_difficulty}
use forgechain.Consensus.Timestamp.{median, median_time_past, window_timestamps}
use forgechain.Chain.State
use forgechain.Chain.State.{ChainManager, BlockTemplate}
use forgechain.Chain.Apply.{apply_all, accepted, apply_block_to_ledger, select_transactions}
use forgechain.Chain.Apply.Rollback.{
  IsChargeable, mint, burn, apply_block_to_ledger-Restores, total-apply_block_to_ledger,
}
use forgechain.Chain.Apply.Selection.{select_transactions-apply}
use forgechain.Chain.Submit.{submit_block, adopt_branch}
use forgechain.Chain.Submit.Progress.{IsProgress, submit_block-IsProgress}
use forgechain.Chain.Submit.Adoption.{IsAdoption, adopt_branch-IsAdoption}
use forgechain.Chain.Queries.{chain_height, block_template}
use forgechain.Chain.Queries.Template.{IsMinedFrom, acceptance, submit_block-block_template}
use forgechain.Tests.Toys.{toy_ssl, payment, before_payment, genesis, first, rival, chain}
use forgechain.Tests.Rules.{toy_doubles}
use forgechain.Tests.Money.{before-IsValid, payment-IsWord}
use forgechain.Tests.Chain.{new-IsIndexed}
use forgechain.Tests.Pools.{empty_pool-IsValid}

-- A block that plays a payment twice; the second time is refused.
abbrev twice : Block
twice = record first { transactions = payment ∷ payment ∷ [] }

payment-IsChargeable : IsChargeable payment
payment-IsChargeable = (payment-IsWord, omega arith)

abbrev after_payment : Ledger
after_payment = (apply_transaction payment before_payment).1

abbrev rolled_back : Ledger
rolled_back = (reverse_transaction payment after_payment).1

twice_is_refused : apply_block_to_ledger twice before_payment ≡ ok (false, rolled_back)
unfolding apply_block_to_ledger apply_transaction charge withdraw set_nonce deposit lookup insert
    has_valid_signature verify derive_address bytes_eq
twice_is_refused = refl

twice_fits : total before_payment + mint twice.transactions < 2 ^ 64
unfolding total mint derive_address bytes_eq
twice_fits = omega arith

apply_block_to_ledger-Restores_example : Restores before_payment rolled_back
apply_block_to_ledger-Restores_example =
    apply_block_to_ledger-Restores twice before_payment before-IsValid
      (payment-IsChargeable, (payment-IsChargeable, tt)) twice_fits twice_is_refused

first_is_applied : apply_block_to_ledger first before_payment ≡ ok (true, after_payment)
unfolding apply_block_to_ledger apply_transaction lookup has_valid_signature verify derive_address
    bytes_eq Block.new
first_is_applied = refl

first_fits : total before_payment + mint first.transactions < 2 ^ 64
unfolding total mint derive_address bytes_eq Block.new
first_fits = omega arith

total-apply_block_to_ledger_example :
    total after_payment + burn first.transactions ≡ total before_payment + mint first.transactions
unfolding Block.new
total-apply_block_to_ledger_example =
    total-apply_block_to_ledger first before_payment before-IsValid (payment-IsChargeable, tt)
      first_fits first_is_applied

-- A pool of one signed payment, and a manager that has just been started.
abbrev one_pending : Mempool
one_pending = record { pending = payment ∷ []; max_size = 2 }

payment_is_signed : has_valid_signature payment ≡ ok true
unfolding has_valid_signature verify derive_address bytes_eq
payment_is_signed = refl

select_transactions-apply_example :
    (l' : Ledger) × (apply_all (select_transactions 5 one_pending before_payment) [] before_payment
      ≡ ok (true, l'))
select_transactions-apply_example =
    select_transactions-apply 5 one_pending before_payment (payment_is_signed, tt)

chain_is_long : 0 < Blockchain.size chain
unfolding add_block Blockchain.new
chain_is_long = omega arith

one_genesis : hash_at Blockchain.new.blocks 0 ≡ hash_at chain.blocks 0
unfolding hash_at add_block Blockchain.new
one_genesis = refl

abbrev pub manager : ChainManager
manager = State.new 2 test_params none

manager-IsIndexed : IsIndexed manager.blockchain
unfolding State.new
manager-IsIndexed = new-IsIndexed

submit_block-IsProgress_example : After (IsProgress manager rival) (submit_block 20 rival manager)
unfolding State.new
submit_block-IsProgress_example =
    submit_block-IsProgress 20 rival manager new-IsIndexed (empty_pool-IsValid 1000) (omega arith)

adopt_branch-IsAdoption_example :
    After (IsAdoption manager) (adopt_branch 20 (genesis ∷ rival ∷ []) manager)
adopt_branch-IsAdoption_example =
    adopt_branch-IsAdoption 20 (genesis ∷ rival ∷ []) manager manager-IsIndexed

find_locator_match-build_locator_example :
    (xs : List Bytes) × (i : ℕ) × (j : ℕ) × (build_locator chain ≡ ok xs)
    × (find_locator_match Blockchain.new xs ≡ some i)
    × (j < Blockchain.size chain)
    × (hash_at Blockchain.new.blocks i ≡ hash_at chain.blocks j)
find_locator_match-build_locator_example =
    find_locator_match-build_locator Blockchain.new chain new-IsIndexed chain_is_long one_genesis

-- The template of the new manager, and a block of version 0 that is mined from it.
abbrev template : BlockTemplate
template = record {
  prev_hash = genesis.hash;
  height = 1;
  timestamp = 50;
  difficulty = 4;
  tip_version = 0;
  transactions = [];
}

abbrev pub mined : Block
mined =
    let b = record (Block.new 0 genesis.hash 50 []) { difficulty = 4 } in
    record b { hash = compute_hash b }

template_is_made : block_template 50 5 manager ≡ ok template
unfolding State.new block_template next_difficulty median_time_past median window_timestamps
    Blockchain.new Blockchain.at select_transactions accepted get_transactions_for_block Block.new
template_is_made = refl

mined-IsMinedFrom : IsMinedFrom template mined
unfolding compute_hash Block.serialize meets_target double_sha_256 Wire.to_le Block.new
mined-IsMinedFrom = record {
  prev_hash = refl;
  timestamp = refl;
  difficulty = refl;
  transactions = refl;
  hashed = refl;
  meets = refl;
}

manager_is_early :
    (past : ℕ)
    → median_time_past
        (chain_height manager)
        manager.params.mtp_window
        (Blockchain.at manager.blockchain)
      ≡ ok past
    → past + 1 < 2 ^ 64
unfolding State.new median_time_past median window_timestamps Blockchain.new Blockchain.at
manager_is_early past h = omega (arith, ok-injective 0 past h)

submit_block-block_template_example :
    (cm' : ChainManager) × (submit_block 51 mined manager ≡ ok (acceptance mined, cm'))
    × (cm'.blockchain ≡ add_block mined manager.blockchain)
unfolding State.new
submit_block-block_template_example =
    submit_block-block_template 50 51 5 manager template mined tt template_is_made mined-IsMinedFrom
      (omega arith) (omega arith) manager_is_early

mined_is_valid : classify_new_block manager.blockchain mined ≡ ok BlockValidation.valid
unfolding State.new classify_new_block compute_hash Block.serialize double_sha_256 Wire.to_le
    Block.new Blockchain.new bytes_eq
mined_is_valid = refl

pub mined_is_no_fork :
    classify_new_block manager.blockchain mined ≢ ok BlockValidation.fork_candidate
mined_is_no_fork = λ h. cc (mined_is_valid, h)

pub manager_is_not_empty : 0 < Blockchain.size manager.blockchain
unfolding State.new Blockchain.new
manager_is_not_empty = omega arith

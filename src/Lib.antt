-- ===== src/Lib.antt =====
-- forgechain: a proof-of-work blockchain node in C++. A node keeps a chain of blocks, a ledger of
-- balances and nonces, a pool of pending transactions and a pool of orphan blocks. Transactions and
-- blocks travel as bytes; a block is accepted if its hash meets the difficulty and the consensus rules
-- hold, and a branch that carries more work replaces the end of the chain.
--
-- The files:
--   Prelude: shared types and lemmas. Numbers are native; a `uint64_t` sum that can wrap around is
--     written `add64`. Outcome.fault stands for a C++ exception that is not caught in the function,
--     or for an access outside a container. Dict stands for `std::unordered_map`.
--   Crypto (src/crypto): OpenSSL's functions are the fields of the record OpenSsl, an instance
--     argument; Crypto.Hex has the hexadecimal texts of src/crypto/Hash.cpp.
--   Core.Wire: the byte layout that the `serialize` and `deserialize` functions share.
--   Core.Transaction, Core.Block (src/core/Transaction.cpp, Block.cpp): records, bytes, hashes.
--   Core.Ledger (src/core/Ledger.cpp): balances and nonces; `apply_transaction` and
--     `reverse_transaction` return the flag and the ledger after.
--   Core.Blockchain (src/core/Blockchain.cpp): the blocks and the index from hashes to heights.
--   Core.ForkResolution (src/core/ForkResolution.cpp): tracing and weighing a branch. The loop is
--     bounded by `kMaxForkDepth` in the source, which is the fuel of `trace`.
--   Core.OrphanPool, Core.Mempool (src/core/OrphanPool.cpp, Mempool.cpp): the two pools. The multiset
--     of the mempool is a list in the multiset's order.
--   Consensus (src/consensus/ProofOfWork.cpp, include/consensus): the target test, the retargeting of
--     the difficulty, the two miners, coinbase amounts and timestamps. The floating-point functions
--     are the fields of the record Doubles, an instance argument. The miner that can be cancelled runs
--     on fuel for every nonce and every timestamp bump, which is enough for it to return.
--   Core.BlockLocator (src/core/BlockLocator.cpp): on fuel, the height of the tip, which is enough.
--   Chain (src/chain/ChainManager.cpp): Chain.State has the manager's state; its mutexes are left out,
--     the clock is an argument `now`, and the calls of a storage are put on a log, in which they cannot
--     throw: each is the last thing that a call of the manager does, and Storage.Served has the
--     call of the manager with that of its storage. Chain.Apply applies and rolls back a block's
--     transactions, Chain.Reorg is `try_reorg` with what it calls, Chain.Submit
--     has the calls that change the manager, Chain.Queries those that read it. In the prefix loop and
--     in the traversal of the orphans the source's own bounds are the fuel.
--   Storage (src/storage/Storage.cpp): the table of blocks. SQLite is the record Sqlite, an instance
--     argument, with its statements, each of which can fail, and their laws; a statement that fails is
--     taken to change nothing, though SQLite itself rolls back a transaction on some errors. Storage.Log
--     and Storage.Calls have what each call of a manager writes.
--   App.Orchestrator (src/app/Orchestrator.cpp): the start of a node on a storage. App.RpcServer,
--     App.Wallet and App.ParseNumber (src/app/RpcServer.cpp, Wallet.cpp, include/app/ParseNumber.hpp):
--     the RPC server's commands, and the wallet's side of them. `std::to_string` has 20 digits of fuel,
--     which is enough for a `uint64_t`.
--   Network.Socket, Network.Message, Network.Handshake, Network.GetBlocks, Network.Inventory,
--     Network.PeerAddress (src/network, files of the same names): reading and writing a socket, the
--     frame of a message, and the payloads. What `recv` and `send` answer is a list, as long as it
--     likes; where it ends, the call blocks.
--   Network.AddressBook (src/network/AddressBook.cpp): the addresses that a node may dial.
--   Network.Node (src/network/Node.cpp, Peer.cpp, Heartbeat.cpp): Node.State has the node's state, in
--     which a `shared_ptr` to a peer is a place in a heap; Node.Peers, Node.Sync, Node.Handlers and
--     Node.Rounds have what it does. A handler, a call from outside, or one round of a loop is one
--     step: it takes the time and what the operating system answers, and gives the node after and the
--     messages that it sends. Node.Invariant.Reach has the states that sequences of steps lead to, in
--     any order. The steady clock is in nanoseconds (Network.Clock).
--   Tests: concrete inputs.
--
-- Not modelled: key generation and signing (OpenSSL), the calls that open and close sockets, threads
-- and locks, so that the steps of two threads never overlap, memory that runs out, the logger, texts
-- for the console, the bootstrap file, the storage's table of balances, and the command-line programs,
-- which are input and output around the parts above.
pub mod Prelude
pub mod Crypto
pub mod Core
pub mod Consensus
pub mod Chain
pub mod Storage
pub mod Network
pub mod App
pub mod Tests

-- ===== src/Lib.antt =====
-- Models of the core of Border, a network whose nodes earn coins for relayed bandwidth, compute and
-- storage.
--
-- The parts and how they interact. A relay, a worker or a storage node hands proofs of its work to
-- a chain, wallets hand it signed transactions, and a miner makes blocks of what waits. A block pays
-- the miner a coinbase; the chain checks it, keeps it, and updates the balances and the ids that are
-- spent. A node that sees a longer valid chain takes it over. Stakes stand beside the balances.
-- Scripts lock outputs and are run by a stack machine. Payment channels move coins between two
-- parties by signed receipts, off the chain. Holders vote on proposals, which spend from a treasury.
-- A node keeps its blocks in a store, floods what is new to its peers and fetches the blocks that it
-- lacks. Files are cut into encrypted chunks that storage nodes keep, markets give jobs to workers and
-- pay for their proofs or results, and two registries hold the names and the identities.
--
--   * Runtime: what the program takes from Python's library and from `cryptography` (JSON printing,
--     encodings, SHA-256, base64, Ed25519). These are fields of the record `Runtime`, on which the
--     definitions depend; nothing is assumed of them but what a theorem's hypotheses say.
--   * Decoding: what a `from_dict` comes to: an exception, a value, or a value of another JSON type than
--     declared, with which the source goes on and of which nothing is modelled.
--   * Economics: border/blockchain/economics.py.
--   * Wallet: border/blockchain/wallet.py, address, `sign` and `verify`.
--   * Transaction: border/blockchain/transaction.py, with `validate_fee` of economics.py.
--   * Proofs, ProofDicts: the three proof records of border/blockchain/block.py.
--   * Block: `Block` of border/blockchain/block.py, with `finalize`.
--   * Chain: `BorderChain` of border/blockchain/chain.py. Its children are Balance
--     (`_apply_tx_to_cache`), Staking (`stake`, `unstake`, `slash`), Intake (`add_proof`,
--     `add_transaction` and their kin), Validate (`_validate_block`, `validate_chain`), Produce
--     (`create_block`, `_add_block_locked`), Reorg (`replace_chain`) and Steps, which puts every
--     operation into one step relation.
--   * Script: border/blockchain/script.py. Op has the opcodes, Bytes the conversions, Build is
--     `ScriptBuilder`, Engine the stack, the signature checks and the outcomes, Machine the loop of
--     `ScriptEngine.run`.
--   * Payments: border/payments/channel.py and receipt.py, with the dictionaries in Codec. Its child
--     Manager is `ChannelManager` of border/payments/manager.py; Steps has its calls as a step
--     relation, and Changes what one call does to the channels.
--   * Dao: border/dao/vote.py and proposal.py. Treasury is border/dao/treasury.py, and Governance the
--     engine of border/dao/governance.py.
--   * Store: the tables of border/blockchain/store.py. Node is a chain with its store (`_save`, `_load`
--     and the start of `BorderChain` with a database), Restart what a start from the store gives back.
--   * Network: border/p2p. Peer is peer.py; Gossip is gossip.py, with the cache in Seen and the way of
--     an envelope in Hops; Sync is sync.py, with `_find_fork` in Fork and the download in Download and
--     CatchUp. What a peer answers is the record `Answers`; Server has the two handlers of server.py
--     that answer.
--   * Dns: border/dns. Dns has the records and `validate_name` of record.py, Registry is registry.py,
--     and Resolver the recursion of resolver.py.
--   * Storage: border/storage. Storage has the chunks of chunk.py, with Reassembly; Node is the store of
--     node.py, Client the upload and download of client.py, and Proof is proof.py. The AEAD cipher is
--     the record `Cipher`.
--   * Compute: border/compute. Compute has the jobs and proofs of job.py, with the dictionaries in
--     Codec; Worker is worker.py, with the choice of a worker in Best; Market is market.py, with its
--     calls as a step relation in Laws. A score of a worker is an exact fraction.
--   * Identity: border/identity. Identity has did.py and claim.py, with the dictionaries in Codec;
--     Registry is registry.py without its file, and Handles has its calls as a step relation.
--   * Render: border/render/job.py. Market is market.py, with the choice of a worker in Best.
--   * Prelude: lists, dicts, integers over the native numbers, rounding and sorting.
--   * Samples: concrete values for the examples in the modules named Tests.
--
-- Numbers. An amount is an integer number of units of 10^-8 BC and a time is a number of
-- microseconds: the source's floats are read as the exact decimals they stand for, so `round(x, 8)`
-- of a sum of amounts is the identity, and where a quotient is rounded the half goes to the even
-- number. Errors of binary floats below half a unit are not modelled. Python's integers are
-- unbounded, and so are ℕ and ℤ.
--
-- State. A Python dict is an association list in insertion order, a set the list of its insertions,
-- and `_chain`, which is never empty, a first block and a list. An operation returns its reply and
-- the new state; the clock, fresh ids and the wallet's key are arguments. An exception is a value.
--
-- Loops are structural recursion, but for `cumulative_supply`, which recurs on the accessibility of
-- the number of blocks that remain, for the two loops of the synchronisation, which recur on that of
-- the distance between their bounds, and for the script machine, which recurs on the number of rounds
-- that the test of `MAX_SCRIPT_OPS` still lets begin: that number is the program's own bound.
--
-- Not modelled: threads and locks, logging, files, the sockets, the HTTP front ends and daemons, the
-- statistics and other queries that no modelled operation calls, and the parts that are not named
-- above, such as the inference market, the scores of identities and the relay.
pub mod Prelude
pub mod Runtime
pub mod Decoding
pub mod Economics
pub mod Wallet
pub mod Transaction
pub mod Proofs
pub mod ProofDicts
pub mod Block
pub mod Chain
pub mod Compute
pub mod Script
pub mod Payments
pub mod Dao
pub mod Store
pub mod Network
pub mod Dns
pub mod Storage
pub mod Identity
pub mod Render
pub mod Samples

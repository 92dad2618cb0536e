-- ===== src/Chain.antt =====
-- border/blockchain/chain.py: the state of `BorderChain`, and what is read off it.
pub mod Balance
pub mod Staking
pub mod Intake
pub mod Validate
pub mod Produce
pub mod Reorg
pub mod Steps
mod Tests
use border.Prelude.{
  ℕ, ◌+◌, ◌-◌, ◌%◌, String, Bool, Option, none, some, List, [], ◌∷◌, ◌++◌, map, length, last,
  get_elem?, take, drop, ltb, if◌then◌else◌,
}
use border.Prelude.Int.{ℤ, pos, ◌+ℤ◌}
use border.Prelude.Dict.{Dict, get, get_or}
use border.Runtime.{Runtime}
use border.Transaction.{Transaction}
use border.Proofs.{BandwidthProof, ComputeProof, StorageProof}
use border.Block
use border.Block.{Block, minted, sum_ℤ}

-- An entry of `_stakes`.
pub record Stake : Type 0 where
  pub amount : ℤ
  pub role : String
  pub locked_at : ℕ

-- An entry of `_slash_log`.
pub record Slash : Type 0 where
  pub address : String
  pub amount : ℤ
  pub reason : String
  pub timestamp : ℕ

-- `_chain` is never empty: it is `first` and then `later`. The sets of spent ids are kept as the
-- lists of their insertions. The lock and the store on disk are no part of the state.
pub record Chain : Type 0 where
  pub first : Block
  pub later : List Block
  pub mempool : List Transaction
  pub pending_proofs : List BandwidthProof
  pub pending_compute_proofs : List ComputeProof
  pub pending_storage_proofs : List StorageProof
  pub spent_receipts : List String
  pub spent_compute_proofs : List String
  pub spent_storage_proofs : List String
  pub mempool_reserved : Dict ℤ
  pub balance_cache : Dict ℤ
  pub stakes : Dict Stake
  pub slash_log : List Slash

abbrev pub blocks : Chain → List Block
blocks c = c.first ∷ c.later

-- `len(self._chain)`
abbrev pub chain_length : Chain → ℕ
chain_length c = length (blocks c)

abbrev pub latest_block : Chain → Block
latest_block c = last c.first c.later

abbrev pub height : Chain → ℕ
height c = chain_length c - 1

-- The coins that the blocks of a list mint.
abbrev pub supply_of : List Block → ℤ
supply_of bs = sum_ℤ (map (λ b. minted b.transactions) bs)

abbrev pub total_supply : Chain → ℤ
total_supply c = supply_of (blocks c)

unfoldable pub get_balance : String → Chain → ℤ
get_balance address c = get_or address (pos 0) c.balance_cache

unfoldable pub get_staked : String → Chain → ℤ
get_staked address c = elim (get address c.stakes) [ none ↦ pos 0 | some s ↦ s.amount ]

-- `block_hash_at`, for the index of a block; out of range it is `None`.
unfoldable pub block_hash_at : ℕ → Chain → Option String
block_hash_at index c = elim (get_elem? (blocks c) index) [
  | none ↦ none
  | some b ↦ some b.block_hash
]

-- `self._chain[max(0, start):min(end + 1, len)]`
unfoldable pub blocks_range : ℕ → ℕ → Chain → List Block
blocks_range start end c = take (end + 1 - start) (drop start (blocks c))

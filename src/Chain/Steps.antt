-- ===== src/Chain/Steps.antt =====
-- A node's chain over time: any of its operations in any order, with any arguments.
use border.Prelude.{ℕ, String, ◌≡◌, List, arith}
use border.Prelude.Int.{ℤ}
use border.Runtime.{Runtime}
use border.Transaction.{Transaction}
use border.Proofs.{BandwidthProof, ComputeProof, StorageProof}
use border.Block.{Block}
use border.Chain.{Chain}
use border.Chain.Staking.{stake, stake_checked, unstake, slash}
use border.Chain.Intake.{add_proof, add_compute_proof, add_storage_proof, add_transaction}
use border.Chain.Validate.{validate_chain}
use border.Chain.Produce.{add_block}
use border.Chain.Reorg.{replace_chain, initial_chain}
use border.Chain.Reorg.Laws.{
  IsSound, add_block-IsSound, replace_chain-IsSound, initial_chain-IsSound,
}

-- One call of an operation of `BorderChain`, with its guards inside.
pub data Step (rt : Runtime) (c : Chain) : Chain → Type 0 where
  added_block : (b : Block) → Step rt c (add_block rt b c).1
  replaced : (bs : List Block) → Step rt c (replace_chain rt bs c).1
  added_transaction : (tx : Transaction) → Step rt c (add_transaction rt tx c).1
  added_proof : (p : BandwidthProof) → Step rt c (add_proof p c).1
  added_compute_proof : (p : ComputeProof) → Step rt c (add_compute_proof rt p c).1
  added_storage_proof : (p : StorageProof) → Step rt c (add_storage_proof rt p c).1
  staked :
      (a : String) (amount : ℤ) (role : String) (now : ℕ)
      → Step rt c (stake rt a amount role now c).1
  unstaked : (a : String) → Step rt c (unstake a c).1
  slashed :
      (a : String) (amount : ℤ) (reason : String) (now : ℕ)
      → Step rt c (slash a amount reason now c).1

pub data Reach (rt : Runtime) : Chain → Type 0 where
  start : Reach rt (initial_chain rt)
  next : {c c' : Chain} → Reach rt c → Step rt c c' → Reach rt c'

-- The part of the state that the blocks determine.
record SameBlocks (c c' : Chain) : Type 0 where
  first : c'.first ≡ c.first
  later : c'.later ≡ c.later
  balances : c'.balance_cache ≡ c.balance_cache
  receipts : c'.spent_receipts ≡ c.spent_receipts
  computes : c'.spent_compute_proofs ≡ c.spent_compute_proofs
  storages : c'.spent_storage_proofs ≡ c.spent_storage_proofs

module _ (rt : Runtime) where
  SameBlocks-IsSound : {c c' : Chain} → SameBlocks c c' → IsSound rt c → IsSound rt c'
  unfolding validate_chain
  SameBlocks-IsSound {c} {c'} s h = record {
    balances = cc (s.first, s.later, s.balances, h.balances);
    receipts = cc (s.first, s.later, s.receipts, h.receipts);
    computes = cc (s.first, s.later, s.computes, h.computes);
    storages = cc (s.first, s.later, s.storages, h.storages);
    is_chain = cc (s.first, s.later, h.is_chain);
  }

  add_transaction-SameBlocks :
      (tx : Transaction) (c : Chain) → SameBlocks c (add_transaction rt tx c).1
  unfolding add_transaction
  add_transaction-SameBlocks tx c = ground arith

  add_proof-SameBlocks : (p : BandwidthProof) (c : Chain) → SameBlocks c (add_proof p c).1
  unfolding add_proof
  add_proof-SameBlocks p c = ground arith

  add_compute_proof-SameBlocks :
      (p : ComputeProof) (c : Chain) → SameBlocks c (add_compute_proof rt p c).1
  unfolding add_compute_proof
  add_compute_proof-SameBlocks p c = ground arith

  add_storage_proof-SameBlocks :
      (p : StorageProof) (c : Chain) → SameBlocks c (add_storage_proof rt p c).1
  unfolding add_storage_proof
  add_storage_proof-SameBlocks p c = ground arith

  stake-SameBlocks :
      (a : String) (amount : ℤ) (role : String) (now : ℕ) (c : Chain)
      → SameBlocks c (stake rt a amount role now c).1
  unfolding stake stake_checked
  stake-SameBlocks a amount role now c = ground arith

  unstake-SameBlocks : (a : String) (c : Chain) → SameBlocks c (unstake a c).1
  unfolding unstake
  unstake-SameBlocks a c = ground arith

  slash-SameBlocks :
      (a : String) (amount : ℤ) (reason : String) (now : ℕ) (c : Chain)
      → SameBlocks c (slash a amount reason now c).1
  unfolding slash
  slash-SameBlocks a amount reason now c = ground arith

  Step-IsSound : {c c' : Chain} → Step rt c c' → IsSound rt c → IsSound rt c'
  Step-IsSound {c} (added_block b) h = add_block-IsSound rt b c h
  Step-IsSound {c} (replaced bs) h = replace_chain-IsSound rt bs c h
  Step-IsSound {c} (added_transaction tx) h = SameBlocks-IsSound (add_transaction-SameBlocks tx c) h
  Step-IsSound {c} (added_proof p) h = SameBlocks-IsSound (add_proof-SameBlocks p c) h
  Step-IsSound {c} (added_compute_proof p) h =
      SameBlocks-IsSound (add_compute_proof-SameBlocks p c) h
  Step-IsSound {c} (added_storage_proof p) h =
      SameBlocks-IsSound (add_storage_proof-SameBlocks p c) h
  Step-IsSound {c} (staked a x r now) h = SameBlocks-IsSound (stake-SameBlocks a x r now c) h
  Step-IsSound {c} (unstaked a) h = SameBlocks-IsSound (unstake-SameBlocks a c) h
  Step-IsSound {c} (slashed a x r now) h = SameBlocks-IsSound (slash-SameBlocks a x r now c) h

  -- After any sequence of calls of the chain's operations from the initial chain, the blocks form a
  -- valid chain, the balances are those that the blocks give, and the spent ids are those of the
  -- blocks.
  pub Reach-IsSound : {c : Chain} → Reach rt c → IsSound rt c
  Reach-IsSound start = initial_chain-IsSound rt
  Reach-IsSound (next r s) = Step-IsSound s (Reach-IsSound r)

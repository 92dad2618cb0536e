-- ===== src/Chain/Validate/Laws.antt =====
-- The conditions of `_validate_block` of border/blockchain/chain.py, one by one.
use border.Prelude.{
  ◌≤◌, String, true, false, ◌≡◌, ◌↔◌, ◌⊎◌, refl, List, [], ◌∷◌, All, eq_iff, arith,
}
use border.Prelude.Dict.{contains}
use border.Runtime.{Runtime}
use border.Transaction.{Transaction, verify_tx, is_coinbase}
use border.Proofs.{BandwidthProof, StorageProof, verify_bandwidth, verify_storage}
use border.Block.{Block, total_bytes, compute_hash}
use border.Chain.{Chain, chain_length, latest_block}
use border.Chain.Validate.{
  Verdict, valid, and_then, check_bandwidth, check_storage, check_transactions, validate_block,
  compute_next_difficulty,
}

module _ (rt : Runtime) where
  -- A bandwidth proof that has not been spent and is signed.
  abbrev pub IsFreshProof : List String → BandwidthProof → Type 0
  IsFreshProof spent p = (contains p.receipt_id spent ≡ false) × (verify_bandwidth rt p ≡ true)

  -- A transaction that is a coinbase or is signed.
  abbrev pub IsPayable : Transaction → Type 0
  IsPayable tx = (is_coinbase tx ≡ true) ⊎ (verify_tx rt tx ≡ true)

  pub check_bandwidth_iff :
      (spent : List String) (ps : List BandwidthProof)
      → (check_bandwidth rt spent ps ≡ valid) ↔ All (IsFreshProof spent) ps
  unfolding check_bandwidth
  check_bandwidth_iff spent [] = (λ _. tt, λ _. refl)
  check_bandwidth_iff spent (p ∷ ps) = (
    λ h. ground (arith, (check_bandwidth_iff spent ps).0),
    λ h. ground (arith, (check_bandwidth_iff spent ps).1 h.1),
  )

  pub check_storage_iff :
      (ps : List StorageProof)
      → (check_storage rt ps ≡ valid) ↔ All (λ p. verify_storage rt p ≡ true) ps
  unfolding check_storage
  check_storage_iff [] = (λ _. tt, λ _. refl)
  check_storage_iff (p ∷ ps) = (
    λ h. ground (arith, (check_storage_iff ps).0),
    λ h. ground (arith, (check_storage_iff ps).1 h.1),
  )

  pub check_transactions_iff :
      (txs : List Transaction) → (check_transactions rt txs ≡ valid) ↔ All IsPayable txs
  unfolding check_transactions
  check_transactions_iff [] = (λ _. tt, λ _. refl)
  check_transactions_iff (tx ∷ txs) = (
    λ h. ground (arith, (check_transactions_iff txs).0),
    λ h. ground (arith, (check_transactions_iff txs).1 h.1),
  )

  -- What a valid block satisfies, in a given chain.
  pub record IsValidBlock (c : Chain) (b : Block) : Type 0 where
    pub at_end : b.index ≡ chain_length c
    pub linked : b.previous_hash ≡ (latest_block c).block_hash
    pub difficult : b.difficulty ≡ compute_next_difficulty c
    pub sealed : compute_hash rt b ≡ b.block_hash
    pub enough : b.difficulty ≤ total_bytes b
    pub fresh : All (IsFreshProof c.spent_receipts) b.bandwidth_proofs
    pub stored : All (λ p. verify_storage rt p ≡ true) b.storage_proofs
    pub payable : All IsPayable b.transactions

  -- The three loops in turn.
  and_then-valid : (v w : Verdict) → and_then v w ≡ valid → (v ≡ valid) × (w ≡ valid)
  and_then-valid valid w h = (refl, h)
  and_then-valid _ w h = cc

  -- `_validate_block` accepts exactly the blocks that satisfy all the conditions of `IsValidBlock`.
  pub validate_block_iff :
      (c : Chain) (b : Block) → (validate_block rt c b ≡ valid) ↔ IsValidBlock c b
  unfolding validate_block
  validate_block_iff c b = (
    λ h. ground (
      arith,
      eq_iff b.previous_hash (latest_block c).block_hash,
      eq_iff (compute_hash rt b) b.block_hash,
      and_then-valid (check_bandwidth rt c.spent_receipts b.bandwidth_proofs)
          (and_then (check_storage rt b.storage_proofs) (check_transactions rt b.transactions)),
      and_then-valid (check_storage rt b.storage_proofs) (check_transactions rt b.transactions),
      (check_bandwidth_iff c.spent_receipts b.bandwidth_proofs).0,
      (check_storage_iff b.storage_proofs).0,
      (check_transactions_iff b.transactions).0,
    ),
    λ h. ground (
      arith,
      eq_iff b.previous_hash (latest_block c).block_hash,
      eq_iff (compute_hash rt b) b.block_hash,
      (check_bandwidth_iff c.spent_receipts b.bandwidth_proofs).1 h.fresh,
      (check_storage_iff b.storage_proofs).1 h.stored,
      (check_transactions_iff b.transactions).1 h.payable,
    ),
  )

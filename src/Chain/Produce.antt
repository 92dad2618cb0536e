-- ===== src/Chain/Produce.antt =====
-- Block production, and the handler that adds a block to the chain.
pub mod Laws
use border.Prelude.{
  ℕ, String, Bool, true, false, not, ◌&&◌, Option, none, some, List, [], ◌∷◌, ◌++◌, map, keep,
  str_eq, ltb, if◌then◌else◌,
}
use border.Prelude.Int.{ℤ, pos, ◌-ℤ◌, leb_ℤ, ltb_ℤ, ◌==ℤ◌, max_ℤ}
use border.Prelude.Dict.{Dict, get, put, remove, contains}
use border.Prelude.Sort.{sorted}
use border.Runtime.{Runtime}
use border.Transaction.{Transaction, verify_tx, validate_fee}
use border.Proofs.{BandwidthProof, ComputeProof, StorageProof}
use border.Block.{Block, sum, finalize}
use border.Chain.{Chain, chain_length, latest_block, total_supply}
use border.Chain.Balance.{apply_txs}
use border.Chain.Intake.{cost}
use border.Chain.Validate.{Verdict, valid, compute_next_difficulty, validate_block}

abbrev pub receipt_ids : List BandwidthProof → List String
receipt_ids ps = map (λ p. p.receipt_id) ps

abbrev pub compute_ids : List ComputeProof → List String
compute_ids ps = map (λ p. p.proof_id) ps

abbrev pub storage_ids : List StorageProof → List String
storage_ids ps = map (λ p. p.proof_id) ps

abbrev pub tx_ids : List Transaction → List String
tx_ids txs = map (λ tx. tx.tx_id) txs

-- `proofs or self._pending_proofs`: an empty argument is as good as none.
abbrev pub or_pending {ℓ} : {A : Type ℓ} → List A → List A → List A
or_pending [] pending = pending
or_pending (x ∷ xs) pending = x ∷ xs

abbrev pub valid_proofs : List BandwidthProof → Chain → List BandwidthProof
valid_proofs proofs c =
    keep (λ p. not (contains p.receipt_id c.spent_receipts)) (or_pending proofs c.pending_proofs)

module _ (rt : Runtime) where
  abbrev pub pending_txs : List Transaction → Chain → List Transaction
  pending_txs transactions c =
      sorted (λ a b. leb_ℤ b.fee a.fee)
        (keep (λ tx. verify_tx rt tx && validate_fee tx) (or_pending transactions c.mempool))

  -- The block before `finalize`.
  unfoldable pub unsealed_block :
      String → List BandwidthProof → List Transaction → ℕ → Chain → Block
  unsealed_block miner_address proofs transactions now c = record {
    index = chain_length c;
    timestamp = now;
    previous_hash = (latest_block c).block_hash;
    miner_address = miner_address;
    bandwidth_proofs = valid_proofs proofs c;
    transactions = pending_txs transactions c;
    compute_proofs =
        keep (λ p. not (contains p.proof_id c.spent_compute_proofs)) c.pending_compute_proofs;
    storage_proofs =
        keep (λ p. not (contains p.proof_id c.spent_storage_proofs)) c.pending_storage_proofs;
    block_hash = "";
    difficulty = compute_next_difficulty c;
  }

  unfoldable pub create_block :
      String → List BandwidthProof → List Transaction → ℕ → Chain → Option Block
  create_block miner_address proofs transactions now c =
      if ltb (sum (map (λ p. p.bytes_forwarded) (valid_proofs proofs c)))
        (compute_next_difficulty c)
      then none
      else some
          (finalize rt (total_supply c) (unsealed_block miner_address proofs transactions now c))

-- One round of the loop that releases the reservations of confirmed transactions.
unfoldable pub release : Transaction → Dict ℤ → Dict ℤ
release tx reserved = elim (get tx.from_address reserved) [
  | none ↦ reserved
  | some held ↦
      let left = max_ℤ (pos 0) (held -ℤ cost tx) in
      if left ==ℤ pos 0 then remove tx.from_address reserved else put tx.from_address left reserved
]

unfoldable pub release_all : List Transaction → Dict ℤ → Dict ℤ
release_all [] reserved = reserved
release_all (tx ∷ txs) reserved = release_all txs (release tx reserved)

-- What `_add_block_locked` does with a valid block.
unfoldable pub accept_block : Block → Chain → Chain
accept_block b c = record c {
  later = c.later ++ b ∷ [];
  spent_receipts = c.spent_receipts ++ receipt_ids b.bandwidth_proofs;
  spent_compute_proofs = c.spent_compute_proofs ++ compute_ids b.compute_proofs;
  spent_storage_proofs = c.spent_storage_proofs ++ storage_ids b.storage_proofs;
  pending_proofs =
      keep (λ p. not (contains p.receipt_id (receipt_ids b.bandwidth_proofs))) c.pending_proofs;
  pending_compute_proofs =
      keep (λ p. not (contains p.proof_id (compute_ids b.compute_proofs))) c.pending_compute_proofs;
  pending_storage_proofs =
      keep (λ p. not (contains p.proof_id (storage_ids b.storage_proofs))) c.pending_storage_proofs;
  mempool_reserved = release_all b.transactions c.mempool_reserved;
  mempool = keep (λ tx. not (contains tx.tx_id (tx_ids b.transactions))) c.mempool;
  balance_cache = apply_txs b.transactions c.balance_cache;
}

-- The early return of `_add_block_locked`.
unfoldable pub decided : Verdict → Block → Chain → Verdict × Chain
decided valid b c = (valid, accept_block b c)
decided reason b c = (reason, c)

unfoldable pub add_block : Runtime → Block → Chain → Verdict × Chain
add_block rt b c = decided (validate_block rt c b) b c

-- Whether `add_block` returned True.
abbrev pub is_valid : Verdict → Bool
is_valid valid = true
is_valid reason = false

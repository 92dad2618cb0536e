-- ===== src/Chain/Validate.antt =====
-- Difficulty of the next block, and the validation of one block and of a whole chain.
pub mod Laws
pub mod Extend
pub mod Inflation
use border.Prelude.{
  ℕ, zero, suc, ◌+◌, ◌-◌, ◌%◌, String, Bool, true, false, not, ◌&&◌, Option, none, some, List, [],
  ◌∷◌, length, get_elem?, str_eq, ltb, ◌==◌, if◌then◌else◌,
}
use border.Prelude.Dict.{contains}
use border.Runtime.{Runtime}
use border.Economics.{calculate_next_difficulty, difficulty_adjustment_interval}
use border.Transaction.{Transaction, verify_tx, is_coinbase}
use border.Proofs.{BandwidthProof, StorageProof, verify_bandwidth, verify_storage}
use border.Block.{Block, total_bytes, compute_hash}
use border.Chain.{Chain, blocks, chain_length, latest_block}

-- The difficulty of the block at `index` behind `prev`. At a retarget the index is a positive
-- multiple of the interval, so the block that it reads is there.
unfoldable pub expected_difficulty : List Block → ℕ → Block → ℕ
expected_difficulty bs index prev =
    if index % difficulty_adjustment_interval == 0
    then elim (get_elem? bs (index - difficulty_adjustment_interval)) [
      | none ↦ prev.difficulty
      | some start_block ↦
          calculate_next_difficulty prev.difficulty start_block.timestamp prev.timestamp
    ]
    else prev.difficulty

-- `_compute_next_difficulty`: `next_index` is the length, which is not zero.
unfoldable pub compute_next_difficulty : Chain → ℕ
compute_next_difficulty c = expected_difficulty (blocks c) (chain_length c) (latest_block c)

-- The reasons of `_validate_block`.
pub data Verdict : Type 0 where
  valid : Verdict
  wrong_index : ℕ → ℕ → Verdict
  previous_hash_mismatch hash_invalid : Verdict
  difficulty_mismatch : ℕ → ℕ → Verdict
  insufficient_bandwidth : ℕ → ℕ → Verdict
  double_spend : String → Verdict
  bandwidth_signature_invalid : String → Verdict
  storage_signature_invalid : String → Verdict
  invalid_tx : String → Verdict

-- A loop that found nothing hands on to the next one.
abbrev pub and_then : Verdict → Verdict → Verdict
and_then valid next = next
and_then found next = found

module _ (rt : Runtime) where
  unfoldable pub check_bandwidth : List String → List BandwidthProof → Verdict
  check_bandwidth spent [] = valid
  check_bandwidth spent (p ∷ ps) =
      if contains p.receipt_id spent
      then double_spend p.receipt_id
      else (if verify_bandwidth rt p
          then check_bandwidth spent ps
          else bandwidth_signature_invalid p.receipt_id)

  unfoldable pub check_storage : List StorageProof → Verdict
  check_storage [] = valid
  check_storage (p ∷ ps) =
      if verify_storage rt p then check_storage ps else storage_signature_invalid p.proof_id

  unfoldable pub check_transactions : List Transaction → Verdict
  check_transactions [] = valid
  check_transactions (tx ∷ txs) =
      let rest = check_transactions txs in
      if is_coinbase tx then rest else (if verify_tx rt tx then rest else invalid_tx tx.tx_id)

  unfoldable pub validate_block : Chain → Block → Verdict
  validate_block c b =
      if not (b.index == chain_length c)
      then wrong_index (chain_length c) b.index
      else (if not (str_eq b.previous_hash (latest_block c).block_hash)
          then previous_hash_mismatch
          else (if not (b.difficulty == compute_next_difficulty c)
              then difficulty_mismatch b.difficulty (compute_next_difficulty c)
              else (if not (str_eq (compute_hash rt b) b.block_hash)
                  then hash_invalid
                  else (if ltb (total_bytes b) b.difficulty
                      then insufficient_bandwidth (total_bytes b) b.difficulty
                      else and_then (check_bandwidth c.spent_receipts b.bandwidth_proofs) (
                          and_then (check_storage b.storage_proofs)
                            (check_transactions b.transactions))))))

-- The reasons of `validate_chain`, with the number of the block.
pub data ChainVerdict : Type 0 where
  chain_valid : ChainVerdict
  broken_link bad_hash too_little_bandwidth : ℕ → ChainVerdict
  wrong_difficulty : ℕ → ℕ → ℕ → ChainVerdict

module _ (rt : Runtime) where
  -- The loop over `i`, where `prev` is block `i - 1` and the list begins with block `i`.
  unfoldable pub validate_from : List Block → ℕ → Block → List Block → ChainVerdict
  validate_from bs i prev [] = chain_valid
  validate_from bs i prev (b ∷ rest) =
      let later = validate_from bs (suc i) b rest in
      if not (str_eq b.previous_hash prev.block_hash)
      then broken_link i
      else (if not (str_eq (compute_hash rt b) b.block_hash)
          then bad_hash i
          else (if ltb (total_bytes b) b.difficulty
              then too_little_bandwidth i
              else (if not (b.difficulty == expected_difficulty bs i prev)
                  then wrong_difficulty i b.difficulty (expected_difficulty bs i prev)
                  else later)))

  unfoldable pub validate_blocks : Block → List Block → ChainVerdict
  validate_blocks first later = validate_from (first ∷ later) 1 first later

  unfoldable pub validate_chain : Chain → ChainVerdict
  validate_chain c = validate_blocks c.first c.later

-- ===== src/Block.antt =====
-- border/blockchain/block.py: the block, its hash, and `finalize`, which mints the coinbase.
pub mod Codec
pub mod Reward
pub mod Unsigned
mod Tests
use border.Prelude.{
  ℕ, ◌+◌, ◌*◌, ◌/◌, ◌%◌, Bool, not, Option, none, some, String, List, [], ◌∷◌, map, keep, ltb,
  if◌then◌else◌,
}
use border.Prelude.Int.{ℤ, pos, negsuc, ◌+ℤ◌, leb_ℤ, ltb_ℤ}
use border.Prelude.Sort.{sorted, text_le}
use border.Runtime.{
  Runtime, Json, int, seconds, text, array, texts, object, Fields, end, field, find_or, nil,
}
use border.Decoding.{
  Decoded, read, required, as_int, as_seconds, as_text, as_array, each, objects, ◌>>=◌,
}
use border.Economics.{block_reward, supply_headroom, min_difficulty}
use border.Transaction
use border.Transaction.{Transaction, is_coinbase}
use border.Proofs.{
  BandwidthProof, ComputeProof, StorageProof, gigabyte, border_coin_value, compute_reward_bc,
  bandwidth_to_dict, bandwidth_from_dict,
}
use border.ProofDicts.{compute_to_dict, compute_from_dict, storage_to_dict, storage_from_dict}

pub record Block : Type 0 where
  pub index : ℕ
  pub timestamp : ℕ
  pub previous_hash : String
  pub miner_address : String
  pub bandwidth_proofs : List BandwidthProof
  pub transactions : List Transaction
  pub compute_proofs : List ComputeProof
  pub storage_proofs : List StorageProof
  pub block_hash : String
  pub difficulty : ℕ

abbrev pub sum : List ℕ → ℕ
sum [] = 0
sum (x ∷ xs) = x + sum xs

abbrev pub sum_ℤ : List ℤ → ℤ
sum_ℤ [] = pos 0
sum_ℤ (x ∷ xs) = x +ℤ sum_ℤ xs

unfoldable pub total_bytes : Block → ℕ
total_bytes b = sum (map (λ p. p.bytes_forwarded) b.bandwidth_proofs)

-- The coins that a list of transactions mints.
abbrev pub minted : List Transaction → ℤ
minted txs = sum_ℤ (map (λ tx. tx.amount) (keep is_coinbase txs))

module _ (rt : Runtime) where
  -- The dictionary that `compute_hash` prints.
  pub hashed_fields : Block → Json
  hashed_fields b = object (
      field "index" (int b.index) (
        field "timestamp" (seconds b.timestamp) (
          field "previous_hash" (text b.previous_hash) (
            field "miner_address" (text b.miner_address) (
              field "difficulty" (int b.difficulty) (
                field "proofs"
                  (array (texts (sorted text_le (map (λ p. p.receipt_id) b.bandwidth_proofs))))
                  (field "compute_proofs"
                    (array (texts (sorted text_le (map (λ p. p.proof_id) b.compute_proofs))))
                    (field "storage_proofs"
                      (array (texts (sorted text_le (map (λ p. p.proof_id) b.storage_proofs))))
                      (field "transactions"
                        (array (texts (map (Transaction.hash rt) b.transactions))) end)))))))))

  unfoldable pub compute_hash : Block → String
  compute_hash b = rt.hex (rt.sha256 (rt.encode (rt.dumps (hashed_fields b))))

  -- `user_txs` of `finalize`: the coinbase ones are dropped, and the highest fee comes first.
  pub user_txs : List Transaction → List Transaction
  unfolding sorted
  user_txs txs = sorted (λ a b. leb_ℤ b.fee a.fee) (keep (λ tx. not (is_coinbase tx)) txs)

-- `raw_reward`: whole units, and what the bandwidth adds as a fraction over one gigabyte.
pub record RawReward : Type 0 where
  pub whole : ℤ
  pub part : ℕ

pub raw_reward : Block → RawReward
unfolding block_reward border_coin_value compute_reward_bc
raw_reward b =
    let total_bw = sum (map border_coin_value b.bandwidth_proofs) in
    let total_compute = sum_ℤ (map compute_reward_bc b.compute_proofs) in
    let total_storage = sum_ℤ (map (λ p. p.reward_bc) b.storage_proofs) in
    let total_fees =
      sum_ℤ (map (λ tx. tx.fee) (keep (λ tx. not (is_coinbase tx)) b.transactions)) in
    record {
      whole =
          pos (block_reward b.index)
          +ℤ pos (total_bw / gigabyte)
          +ℤ total_compute
          +ℤ total_storage
          +ℤ total_fees;
      part = total_bw % gigabyte;
    }

-- 0 for an even number and 1 for an odd one.
abbrev parity : ℤ → ℕ
parity (pos n) = n % 2
parity (negsuc n) = (n + 1) % 2

-- `round` of a whole number and a fraction below one.
pub round_part : ℤ → ℕ → ℤ
round_part whole part =
    if ltb (2 * part) gigabyte
    then whole
    else (if ltb gigabyte (2 * part) then whole +ℤ pos 1 else whole +ℤ pos (parity whole))

-- `round(min(raw_reward, headroom), 8)`: below the headroom the raw reward counts, fraction and all.
unfoldable pub capped_reward : RawReward → ℤ → ℤ
capped_reward raw headroom =
    if ltb_ℤ raw.whole headroom then round_part raw.whole raw.part else headroom

module _ (rt : Runtime) where
  -- The block that `finalize` leaves. The id of the coinbase is made from the block's index.
  unfoldable pub finalize : ℤ → Block → Block
  finalize current_supply b =
      let total_reward = capped_reward (raw_reward b) (supply_headroom current_supply) in
      let coinbase = Transaction.coinbase rt b.miner_address total_reward (rt.show_int b.index) in
      let sealed = record b { transactions = coinbase ∷ user_txs rt b.transactions } in
      record sealed { block_hash = compute_hash rt sealed }

  unfoldable pub genesis : Block
  genesis =
      let bare : Block = record {
        index = 0;
        timestamp = 1_748_649_600_000_000;
        previous_hash = "0000000000000000000000000000000000000000000000000000000000000000";
        miner_address = "BC_GENESIS_00000000000000000000000000000000";
        bandwidth_proofs = [];
        transactions =
            Transaction.coinbase rt "BC_GENESIS_00000000000000000000000000000000" (pos 0) "genesis"
            ∷ [];
        compute_proofs = [];
        storage_proofs = [];
        block_hash = "";
        difficulty = min_difficulty;
      } in
      record bare { block_hash = compute_hash rt bare }

unfoldable pub to_dict : Block → Fields
unfolding Transaction.to_dict bandwidth_to_dict compute_to_dict storage_to_dict
to_dict b = field "index" (int b.index) (
    field "timestamp" (seconds b.timestamp) (
      field "previous_hash" (text b.previous_hash) (
        field "miner_address" (text b.miner_address) (
          field "difficulty" (int b.difficulty) (
            field "bandwidth_proofs" (array (objects bandwidth_to_dict b.bandwidth_proofs)) (
              field "compute_proofs" (array (objects compute_to_dict b.compute_proofs)) (
                field "storage_proofs" (array (objects storage_to_dict b.storage_proofs)) (
                  field "transactions" (array (objects Transaction.to_dict b.transactions))
                    (field "block_hash" (text b.block_hash) end)))))))))

unfoldable pub from_dict : Fields → Decoded Block
unfolding Transaction.from_dict bandwidth_from_dict compute_from_dict storage_from_dict
from_dict d = do
  index ← required "index" d >>= as_int
  timestamp ← required "timestamp" d >>= as_seconds
  previous_hash ← required "previous_hash" d >>= as_text
  miner_address ← required "miner_address" d >>= as_text
  difficulty ← as_int (find_or "difficulty" (int min_difficulty) d)
  bandwidth_proofs ←
      as_array (find_or "bandwidth_proofs" (array nil) d) >>= each bandwidth_from_dict
  transactions ← as_array (find_or "transactions" (array nil) d) >>= each Transaction.from_dict
  compute_proofs ← as_array (find_or "compute_proofs" (array nil) d) >>= each compute_from_dict
  storage_proofs ← as_array (find_or "storage_proofs" (array nil) d) >>= each storage_from_dict
  block_hash ← as_text (find_or "block_hash" (text "") d)
  read (record {
    index = index;
    timestamp = timestamp;
    previous_hash = previous_hash;
    miner_address = miner_address;
    bandwidth_proofs = bandwidth_proofs;
    transactions = transactions;
    compute_proofs = compute_proofs;
    storage_proofs = storage_proofs;
    block_hash = block_hash;
    difficulty = difficulty;
  })

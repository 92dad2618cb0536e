-- ===== src/Block/Unsigned.antt =====
-- `compute_hash` of border/blockchain/block.py and the signatures of transactions.
use border.Prelude.{◌≡◌, refl, List, [], ◌∷◌, map, none, ap}
use border.Runtime.{Runtime}
use border.Transaction
use border.Transaction.{Transaction}
use border.Block.{Block, compute_hash, hashed_fields}

-- A transaction without its signature and its key, and a block of such.
abbrev pub strip_tx : Transaction → Transaction
strip_tx tx = record tx { public_key = ""; signature = none }

abbrev pub strip : Block → Block
strip b = record b { transactions = map strip_tx b.transactions }

module _ (rt : Runtime) where
  hashes-strip :
      (txs : List Transaction)
      → map (Transaction.hash rt) (map strip_tx txs) ≡ map (Transaction.hash rt) txs
  unfolding Transaction.hash
  hashes-strip [] = refl
  hashes-strip (tx ∷ txs) = ap (◌∷◌ (Transaction.hash rt tx)) (hashes-strip txs)

  pub compute_hash-strip : (b : Block) → compute_hash rt (strip b) ≡ compute_hash rt b
  unfolding compute_hash hashed_fields
  compute_hash-strip b = rw (hashes-strip, compute_hash, hashed_fields)

-- ===== src/Block/Codec.antt =====
-- `to_dict` and `from_dict` of a block, with all that it holds.
use border.Prelude.{◌≡◌}
use border.Decoding.{read, each-objects}
use border.Transaction
use border.Transaction.Codec.{from_dict-to_dict as transaction_back}
use border.Proofs.{bandwidth_to_dict, bandwidth_from_dict}
use border.ProofDicts.{compute_to_dict, compute_from_dict, storage_to_dict, storage_from_dict}
use border.ProofDicts.Codec.{
  bandwidth_from_dict-to_dict, compute_from_dict-to_dict, storage_from_dict-to_dict,
}
use border.Block.{Block, to_dict, from_dict}

-- Reading back a written block gives the same block, its transactions and proofs included.
pub block_from_dict-to_dict : (b : Block) → from_dict (to_dict b) ≡ read b
unfolding from_dict to_dict
block_from_dict-to_dict b = rw (
  each-objects bandwidth_to_dict bandwidth_from_dict bandwidth_from_dict-to_dict b.bandwidth_proofs,
  each-objects Transaction.to_dict Transaction.from_dict transaction_back b.transactions,
  each-objects compute_to_dict compute_from_dict compute_from_dict-to_dict b.compute_proofs,
  each-objects storage_to_dict storage_from_dict storage_from_dict-to_dict b.storage_proofs,
)

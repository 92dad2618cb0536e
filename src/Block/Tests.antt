-- ===== src/Block/Tests.antt =====
-- The theorems on blocks at concrete blocks.
use mathlib.Core.List.{Perm}
use border.Prelude.{◌≡◌, not, List, [], ◌∷◌, keep, arith}
use border.Prelude.Int.{ℤ, pos, ◌+ℤ◌, ◌≤ℤ◌, leb_ℤ}
use border.Prelude.Sort.{IsSorted}
use border.Economics.{max_supply}
use border.Transaction
use border.Transaction.{Transaction, is_coinbase}
use border.Decoding.{read}
use border.Block.{Block, finalize, minted, to_dict, from_dict}
use border.Block.Codec.{block_from_dict-to_dict}
use border.Block.Reward.{finalize_within_cap, finalize_transactions}
use border.Samples.{toy, relayed, payment}

abbrev open_block : Block
open_block = record {
  index = 1;
  timestamp = 5;
  previous_hash = "h";
  miner_address = "BC_h";
  bandwidth_proofs = relayed ∷ [];
  transactions = payment ∷ record payment { tx_id = "tx_2"; fee = pos 200_000 } ∷ [];
  compute_proofs = [];
  storage_proofs = [];
  block_hash = "";
  difficulty = 1_048_576;
}

from_dict-to_dict_example : from_dict (to_dict open_block) ≡ read open_block
from_dict-to_dict_example = block_from_dict-to_dict open_block

finalize_within_cap_example :
    pos 2_099_999_999_999_990
      +ℤ minted (finalize toy (pos 2_099_999_999_999_990) open_block).transactions
    ≤ℤ pos max_supply
finalize_within_cap_example =
    finalize_within_cap toy (pos 2_099_999_999_999_990) open_block (omega arith)

finalize_transactions_example :
    (reward : ℤ) × (txs : List Transaction) × ((finalize toy (pos 0) open_block).transactions
      ≡ Transaction.coinbase toy "BC_h" reward "0" ∷ txs)
    × Perm txs (keep (λ tx. not (is_coinbase tx)) open_block.transactions)
    × IsSorted (λ a b. leb_ℤ b.fee a.fee) txs
finalize_transactions_example = finalize_transactions toy (pos 0) open_block

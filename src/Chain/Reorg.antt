-- ===== src/Chain/Reorg.antt =====
-- Replacing the chain by a longer one, and rebuilding what is derived from the blocks.
pub mod Laws
pub mod Unsigned
use border.Prelude.{ℕ, Bool, true, false, String, List, [], ◌∷◌, ◌++◌, length, leb, if◌then◌else◌}
use border.Runtime.{Runtime}
use border.Block.{Block, genesis}
use border.Chain.{Chain, blocks, chain_length}
use border.Chain.Balance.{rebuild_balance_cache}
use border.Chain.Validate.{ChainVerdict, chain_valid, validate_blocks}
use border.Chain.Produce.{receipt_ids, compute_ids, storage_ids}

abbrev pub all_receipts : List Block → List String
all_receipts [] = []
all_receipts (b ∷ bs) = receipt_ids b.bandwidth_proofs ++ all_receipts bs

abbrev pub all_compute : List Block → List String
all_compute [] = []
all_compute (b ∷ bs) = compute_ids b.compute_proofs ++ all_compute bs

abbrev pub all_storage : List Block → List String
all_storage [] = []
all_storage (b ∷ bs) = storage_ids b.storage_proofs ++ all_storage bs

unfoldable pub rebuild_spent_set : Chain → Chain
rebuild_spent_set c = rebuild_balance_cache (record c {
  spent_receipts = all_receipts (blocks c);
  spent_compute_proofs = all_compute (blocks c);
  spent_storage_proofs = all_storage (blocks c);
})

-- The candidate is adopted if its validation says so.
unfoldable pub adopted : ChainVerdict → Block → List Block → Chain → Bool × Chain
adopted chain_valid first later c =
    (true, rebuild_spent_set (record c { first = first; later = later }))
adopted reason first later c = (false, c)

-- The candidate passes `validate_chain` of a chain that holds it and nothing else.
unfoldable pub replace_chain : Runtime → List Block → Chain → Bool × Chain
replace_chain rt [] c = (false, c)
replace_chain rt (first ∷ later) c =
    if leb (length (first ∷ later)) (chain_length c)
    then (false, c)
    else adopted (validate_blocks rt first later) first later c

-- `BorderChain()` with no path.
unfoldable pub initial_chain : Runtime → Chain
initial_chain rt = rebuild_balance_cache (record {
  first = genesis rt;
  later = [];
  mempool = [];
  pending_proofs = [];
  pending_compute_proofs = [];
  pending_storage_proofs = [];
  spent_receipts = [];
  spent_compute_proofs = [];
  spent_storage_proofs = [];
  mempool_reserved = [];
  balance_cache = [];
  stakes = [];
  slash_log = [];
})

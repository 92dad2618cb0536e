-- ===== src/Store/Tests.antt =====
-- The theorems on the store at concrete nodes.
use border.Prelude.{◌<◌, ◌≡◌, refl, true, [], ◌∷◌}
use border.Decoding.{read}
use border.Block.{genesis}
use border.Chain.{blocks, chain_length}
use border.Chain.Balance.{rebuild_balance_cache}
use border.Chain.Validate.{chain_valid, validate_chain, validate_blocks, validate_from}
use border.Chain.Validate.Extend.{validate_chain-add}
use border.Chain.Produce.{add_block}
use border.Chain.Reorg.{initial_chain, replace_chain, adopted}
use border.Chain.Reorg.Laws.{initial_chain-IsSound}
use border.Store.Laws.{row_of, Implements, Holds-Implements}
use border.Store.Node.{Node, open_node, add_block_saved, replace_chain_saved}
use border.Store.Restart.{
  IsSaved, restarted, restart_restores, add_block_saved-IsSaved, restart_forgets_replacement,
}
use border.Samples.{toy, ready, made, made-is_valid}

-- A node with the genesis block, which it has saved.
abbrev node : Node
node = record {
  chain = initial_chain toy;
  store = record { rows = row_of (genesis toy) ∷ []; metadata = [] };
}

node-IsSaved : IsSaved node
unfolding initial_chain rebuild_balance_cache genesis
node-IsSaved = record { numbered = (refl, tt); rows = refl }

Holds-Implements_example : Implements node.store (blocks node.chain)
Holds-Implements_example = Holds-Implements node.store (blocks node.chain) node-IsSaved

restart_restores_example :
    open_node toy node.store ≡ read (record node { chain = restarted toy node.chain })
restart_restores_example = restart_restores toy node node-IsSaved (initial_chain-IsSound toy)

add_block_saved-IsSaved_example :
    (n : Node) × (add_block_saved toy made node ≡ read ((add_block toy made node.chain).0, n))
    × (n.chain ≡ (add_block toy made node.chain).1)
    × IsSaved n
add_block_saved-IsSaved_example = add_block_saved-IsSaved toy made node node-IsSaved

longer-is_valid : validate_blocks toy (genesis toy) (made ∷ []) ≡ chain_valid
longer-is_valid =
    validate_chain-add toy ready made (unfold validate_chain validate_blocks validate_from in refl)
      made-is_valid

replaced : (replace_chain_saved toy (genesis toy ∷ made ∷ []) node).0 ≡ true
unfolding replace_chain_saved replace_chain adopted initial_chain rebuild_balance_cache
replaced = rw longer-is_valid refl

restart_forgets_replacement_example :
    (open_node toy (replace_chain_saved toy (genesis toy ∷ made ∷ []) node).1.store
      ≡ read (record node { chain = restarted toy node.chain }))
    × (chain_length (restarted toy node.chain)
        < chain_length (replace_chain_saved toy (genesis toy ∷ made ∷ []) node).1.chain)
restart_forgets_replacement_example =
    restart_forgets_replacement toy (genesis toy ∷ made ∷ []) node node-IsSaved
      (initial_chain-IsSound toy) replaced

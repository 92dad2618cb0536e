-- ===== src/Store/Node.antt =====
-- The persistence of border/blockchain/chain.py: the chain of a node with its store, saved block by
-- block and loaded at the start.
use border.Prelude.{Bool, List, [], ◌∷◌, ltb, if◌then◌else◌}
use border.Runtime.{Runtime, Fields}
use border.Decoding.{Decoded, read, ◌>>=◌}
use border.Block.{Block, to_dict, from_dict}
use border.Chain.{Chain, latest_block}
use border.Chain.Validate.{Verdict}
use border.Chain.Produce.{add_block, is_valid}
use border.Chain.Reorg.{initial_chain, rebuild_spent_set, replace_chain}
use border.Store.{Store, append_block, load_all, count}

pub record Node : Type 0 where
  pub chain : Chain
  pub store : Store

-- `[Block.from_dict(b) for b in blocks_raw]`
unfoldable pub decode_all : List Fields → Decoded (List Block)
decode_all [] = read []
decode_all (d ∷ ds) = do b ← from_dict d; bs ← decode_all ds; read (b ∷ bs)

-- `_save`, with a store
unfoldable pub save : Node → Decoded Node
save n =
    append_block (to_dict (latest_block n.chain)) n.store >>= (λ t. read (record n { store = t }))

-- `_load`, with a store
unfoldable pub load : Runtime → Node → Decoded Node
load rt n = decode_all (load_all n.store) >>= (λ bs. elim bs [
  | [] ↦ read n
  | b ∷ later ↦
      read (record n { chain = rebuild_spent_set (record n.chain { first = b; later = later }) })
])

-- `BorderChain(path)` with a path to a database
unfoldable pub open_node : Runtime → Store → Decoded Node
open_node rt t =
    let n : Node = record { chain = initial_chain rt; store = t } in
    if ltb 0 (count t) then load rt n else save n

-- `add_block`, with a store; an exception of the saving is passed on
unfoldable pub add_block_saved : Runtime → Block → Node → Decoded (Verdict × Node)
add_block_saved rt b n =
    let added = add_block rt b n.chain in
    let n' : Node = record n { chain = added.1 } in
    if is_valid added.0 then save n' >>= (λ m. read (added.0, m)) else read (added.0, n')

-- `replace_chain`, with a store
unfoldable pub replace_chain_saved : Runtime → List Block → Node → Bool × Node
replace_chain_saved rt bs n =
    let replaced = replace_chain rt bs n.chain in (replaced.0, record n { chain = replaced.1 })

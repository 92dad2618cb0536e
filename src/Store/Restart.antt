-- ===== src/Store/Restart.antt =====
-- A node that is started again from its store.
use border.Prelude.{
  ◌<◌, ◌≡◌, refl, ◌∙◌, true, false, inl, inr, Bool-cases, List, [], ◌∷◌, map, length, last-append,
  ltb, arith,
}
use border.Runtime.{Runtime}
use border.Decoding.{read}
use border.Block.{Block, to_dict}
use border.Block.Codec.{block_from_dict-to_dict}
use border.Chain.{Chain, blocks, chain_length}
use border.Chain.Balance.{rebuild_balance_cache}
use border.Chain.Validate.{
  Verdict, valid, ChainVerdict, chain_valid, validate_block, validate_blocks,
}
use border.Chain.Validate.Laws.{validate_block_iff}
use border.Chain.Produce.{add_block, accept_block, decided, is_valid}
use border.Chain.Reorg.{initial_chain, rebuild_spent_set, replace_chain, adopted}
use border.Chain.Reorg.Laws.{IsSound}
use border.Store.{Store}
use border.Store.Laws.{Holds, Holds-Implements}
use border.Store.Node.{
  Node, decode_all, save, load, open_node, add_block_saved, replace_chain_saved,
}

-- The store of the node holds the blocks of its chain.
abbrev pub IsSaved : Node → Type 0
IsSaved n = Holds n.store (blocks n.chain)

decode_all-dicts : (bs : List Block) → decode_all (map to_dict bs) ≡ read bs
unfolding decode_all
decode_all-dicts [] = refl
decode_all-dicts (b ∷ bs) = rw (block_from_dict-to_dict b, decode_all-dicts bs) refl

module _ (rt : Runtime) where
  -- What a start from a store that holds the blocks of `c` makes of them.
  abbrev pub restarted : Chain → Chain
  restarted c = record (initial_chain rt) {
    first = c.first;
    later = c.later;
    spent_receipts = c.spent_receipts;
    spent_compute_proofs = c.spent_compute_proofs;
    spent_storage_proofs = c.spent_storage_proofs;
    balance_cache = c.balance_cache;
  }

  open_node-rebuilt :
      (t : Store) (c : Chain)
      → Holds t (blocks c)
      → open_node rt t
        ≡ read (record {
          chain =
              rebuild_spent_set (record (initial_chain rt) { first = c.first; later = c.later });
          store = t;
        })
  unfolding open_node load
  open_node-rebuilt t c h =
      let list = Holds-Implements t (blocks c) h in
      let some_blocks : ltb 0 (length (blocks c)) ≡ true = ground arith in
      rw (list.counts, list.loads, some_blocks, decode_all-dicts (blocks c)) refl

  is_valid-valid : (v : Verdict) → is_valid v ≡ true → v ≡ valid
  is_valid-valid valid h = refl
  is_valid-valid _ h = cc

  decided-same : (v : Verdict) (b : Block) (c : Chain) → is_valid v ≡ false → decided v b c ≡ (v, c)
  unfolding decided
  decided-same valid b c h = absurd (cc h)
  decided-same _ b c h = refl

  save-IsSaved :
      (b : Block) (n : Node)
      → IsSaved n
      → b.index ≡ chain_length n.chain
      → (t : Store) × (save (record n { chain = accept_block b n.chain })
          ≡ read (record { chain = accept_block b n.chain; store = t }))
        × Holds t (blocks (accept_block b n.chain))
  unfolding save accept_block
  save-IsSaved b n saved index =
      let (t, e, h) = (Holds-Implements n.store (blocks n.chain) saved).appends b index in
      (t, rw (last-append n.chain.first b n.chain.later, e) refl, h)

  -- A node that saved the blocks of a sound chain and is started again has the same blocks, the same
  -- balances and the same spent ids. All else is as in a new chain: what waited in the pools, the
  -- stakes and the log of slashes are gone.
  pub restart_restores :
      (n : Node)
      → IsSaved n
      → IsSound rt n.chain
      → open_node rt n.store ≡ read (record n { chain = restarted n.chain })
  unfolding rebuild_spent_set rebuild_balance_cache
  restart_restores n saved sound =
      open_node-rebuilt n.store n.chain saved
      ∙ simp (sound.balances, sound.receipts, sound.computes, sound.storages)

  -- Adding a block to a saved node succeeds, the verdict and the chain are those of `add_block`, and
  -- the node is saved after it.
  pub add_block_saved-IsSaved :
      (b : Block) (n : Node)
      → IsSaved n
      → (n' : Node) × (add_block_saved rt b n ≡ read ((add_block rt b n.chain).0, n'))
        × (n'.chain ≡ (add_block rt b n.chain).1)
        × IsSaved n'
  unfolding add_block_saved add_block decided
  add_block_saved-IsSaved b n saved = elim (Bool-cases (is_valid (validate_block rt n.chain b))) [
    | inl e ↦
        let v = is_valid-valid (validate_block rt n.chain b) e in
        let (t, e', h) = save-IsSaved b n saved ((validate_block_iff rt n.chain b).0 v).at_end in
        rw v (record { chain = accept_block b n.chain; store = t }, rw e' refl, refl, h)
    | inr e ↦ rw (decided-same _ b n.chain e, e) (n, refl, refl, saved)
  ]

  adopted-longer :
      (v : ChainVerdict) (first : Block) (later : List Block) (c : Chain)
      → length c.later < length later
      → (adopted v first later c).0 ≡ true
      → chain_length c < chain_length (adopted v first later c).1
  unfolding adopted rebuild_spent_set rebuild_balance_cache
  adopted-longer chain_valid first later c longer h = omega arith
  adopted-longer _ first later c longer h = absurd (cc h)

  replace_chain-longer :
      (bs : List Block) (c : Chain)
      → (replace_chain rt bs c).0 ≡ true
      → chain_length c < chain_length (replace_chain rt bs c).1
  unfolding replace_chain
  replace_chain-longer [] c h = absurd (cc h)
  replace_chain-longer (first ∷ later) c h =
      ground (arith, adopted-longer (validate_blocks rt first later) first later c)

  -- A saved node whose chain is replaced by a longer one, and which is started again, is back at the
  -- blocks from before the replacement.
  pub restart_forgets_replacement :
      (bs : List Block) (n : Node)
      → IsSaved n
      → IsSound rt n.chain
      → (replace_chain_saved rt bs n).0 ≡ true
      → (open_node rt (replace_chain_saved rt bs n).1.store
          ≡ read (record n { chain = restarted n.chain }))
        × (chain_length (restarted n.chain) < chain_length (replace_chain_saved rt bs n).1.chain)
  unfolding replace_chain_saved
  restart_forgets_replacement bs n saved sound ok =
      (restart_restores n saved sound, replace_chain-longer bs n.chain ok)

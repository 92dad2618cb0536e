-- ===== src/Chain/Reorg/Laws.antt =====
-- What `_add_block_locked` and `replace_chain` of border/blockchain/chain.py derive from the blocks.
use mathlib.Core.List.{append_assoc, append-nil}
use border.Prelude.{
  ◌≡◌, refl, sym, ap, subst, ◌∙◌, false, List, [], ◌∷◌, ◌++◌, length, leb, inl, inr, Bool-cases,
  All, All-map,
}
use border.Prelude.Int.{ℤ}
use border.Prelude.Dict.{Dict, contains}
use border.Runtime.{Runtime}
use border.Block.{Block, genesis}
use border.Chain.{Chain, blocks, chain_length}
use border.Chain.Balance.{apply_txs, apply_blocks, rebuild_balance_cache}
use border.Chain.Validate.{
  Verdict, valid, validate_block, ChainVerdict, chain_valid, validate_chain, validate_blocks,
  validate_from,
}
use border.Chain.Validate.Laws.{validate_block_iff}
use border.Chain.Validate.Extend.{validate_chain-add}
use border.Chain.Produce.{receipt_ids, compute_ids, storage_ids, accept_block, decided, add_block}
use border.Chain.Reorg.{
  all_receipts, all_compute, all_storage, rebuild_spent_set, replace_chain, adopted, initial_chain,
}

-- The balances and the spent ids are those that the blocks give, and the blocks are a valid chain.
pub record IsSound (rt : Runtime) (c : Chain) : Type 0 where
  pub balances : c.balance_cache ≡ apply_blocks (blocks c) []
  pub receipts : c.spent_receipts ≡ all_receipts (blocks c)
  pub computes : c.spent_compute_proofs ≡ all_compute (blocks c)
  pub storages : c.spent_storage_proofs ≡ all_storage (blocks c)
  pub is_chain : validate_chain rt c ≡ chain_valid

apply_blocks-append :
    (bs : List Block) (b : Block) (d : Dict ℤ)
    → apply_blocks (bs ++ b ∷ []) d ≡ apply_txs b.transactions (apply_blocks bs d)
unfolding apply_blocks
apply_blocks-append [] b d = refl
apply_blocks-append (x ∷ bs) b d = apply_blocks-append bs b (apply_txs x.transactions d)

all_receipts-append :
    (bs : List Block) (b : Block)
    → all_receipts (bs ++ b ∷ []) ≡ all_receipts bs ++ receipt_ids b.bandwidth_proofs
all_receipts-append [] b = append-nil _
all_receipts-append (x ∷ bs) b = simp (all_receipts-append bs b, append_assoc)

all_compute-append :
    (bs : List Block) (b : Block)
    → all_compute (bs ++ b ∷ []) ≡ all_compute bs ++ compute_ids b.compute_proofs
all_compute-append [] b = append-nil _
all_compute-append (x ∷ bs) b = simp (all_compute-append bs b, append_assoc)

all_storage-append :
    (bs : List Block) (b : Block)
    → all_storage (bs ++ b ∷ []) ≡ all_storage bs ++ storage_ids b.storage_proofs
all_storage-append [] b = append-nil _
all_storage-append (x ∷ bs) b = simp (all_storage-append bs b, append_assoc)

module _ (rt : Runtime) where
  accept_block-IsSound :
      (b : Block) (c : Chain)
      → IsSound rt c
      → validate_block rt c b ≡ valid
      → IsSound rt (accept_block b c)
  unfolding accept_block validate_chain
  accept_block-IsSound b c h ok = record {
    balances = ap (apply_txs b.transactions) h.balances ∙ sym (apply_blocks-append (blocks c) b []);
    receipts =
        ap (λ s. s ++ receipt_ids b.bandwidth_proofs) h.receipts
        ∙ sym (all_receipts-append (blocks c) b);
    computes =
        ap (λ s. s ++ compute_ids b.compute_proofs) h.computes
        ∙ sym (all_compute-append (blocks c) b);
    storages =
        ap (λ s. s ++ storage_ids b.storage_proofs) h.storages
        ∙ sym (all_storage-append (blocks c) b);
    is_chain = validate_chain-add rt c b h.is_chain ok;
  }

  pub verdict_of : (v : Verdict) (b : Block) (c : Chain) → (decided v b c).0 ≡ valid → v ≡ valid
  unfolding decided
  verdict_of valid b c h = refl
  verdict_of _ b c h = h

  decided-IsSound :
      (v : Verdict) (b : Block) (c : Chain)
      → validate_block rt c b ≡ v
      → IsSound rt c
      → IsSound rt (decided v b c).1
  unfolding decided
  decided-IsSound valid b c e h = accept_block-IsSound b c h e
  decided-IsSound _ b c e h = h

  -- Adding a block, whatever the verdict, keeps the chain sound.
  pub add_block-IsSound : (b : Block) (c : Chain) → IsSound rt c → IsSound rt (add_block rt b c).1
  unfolding add_block
  add_block-IsSound b c h = decided-IsSound (validate_block rt c b) b c refl h

  adopted-IsSound :
      (v : ChainVerdict) (first : Block) (later : List Block) (c : Chain)
      → validate_blocks rt first later ≡ v
      → IsSound rt c
      → IsSound rt (adopted v first later c).1
  unfolding adopted rebuild_spent_set rebuild_balance_cache validate_chain
  adopted-IsSound chain_valid first later c e h = record {
    balances = refl;
    receipts = refl;
    computes = refl;
    storages = refl;
    is_chain = e;
  }
  adopted-IsSound _ first later c e h = h

  -- So does replacing the chain, whether the candidate is adopted or not.
  pub replace_chain-IsSound :
      (bs : List Block) (c : Chain) → IsSound rt c → IsSound rt (replace_chain rt bs c).1
  unfolding replace_chain
  replace_chain-IsSound [] c h = h
  replace_chain-IsSound (first ∷ later) c h =
      elim (Bool-cases (leb (length (first ∷ later)) (chain_length c))) [
        | inl short ↦ rw short h
        | inr longer ↦
            rw longer (adopted-IsSound (validate_blocks rt first later) first later c refl h)
      ]

  pub initial_chain-IsSound : IsSound rt (initial_chain rt)
  unfolding initial_chain rebuild_balance_cache validate_chain validate_blocks validate_from genesis
  initial_chain-IsSound = record {
    balances = refl;
    receipts = refl;
    computes = refl;
    storages = refl;
    is_chain = refl;
  }

  -- In a sound chain no bandwidth receipt of a block that `add_block` accepts stands in a block of
  -- the chain.
  pub add_block_fresh :
      (b : Block) (c : Chain)
      → IsSound rt c
      → (add_block rt b c).0 ≡ valid
      → All (λ p. contains p.receipt_id (all_receipts (blocks c)) ≡ false) b.bandwidth_proofs
  unfolding add_block
  add_block_fresh b c h ok =
      let v = (validate_block_iff rt c b).0 (verdict_of (validate_block rt c b) b c ok) in
      subst (λ spent. All (λ p. contains p.receipt_id spent ≡ false) b.bandwidth_proofs) h.receipts
        (All-map _ _ (λ p f. f.0) b.bandwidth_proofs v.fresh)

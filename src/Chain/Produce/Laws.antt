-- ===== src/Chain/Produce/Laws.antt =====
-- What `create_block` offers, and what `add_block` does with it.
use border.Prelude.{
  ℕ, ◌≤◌, ◌≡◌, ◌≢◌, sym, refl, inl, inr, String, Bool, true, not, ◌&&◌, some, List, [], ◌∷◌, ◌++◌,
  keep, some_of, All, All-map, All-trivial, keep-All, subst, arith, Bool-cases,
}
use border.Prelude.Int.{pos, ◌+ℤ◌, ◌≤ℤ◌, int_laws}
use border.Prelude.Dict.{contains}
use border.Prelude.Sort.{sorted-All}
use border.Runtime.{Runtime}
use border.Economics.{max_supply}
use border.Transaction
use border.Transaction.{Transaction, verify_tx, validate_fee, is_coinbase}
use border.Proofs.{BandwidthProof, verify_bandwidth, verify_storage}
use border.Block.{Block, total_bytes, finalize, minted}
use border.Block.Reward.{finalize_within_cap, finalize_sealed, user_txs-All}
use border.Chain.{Chain, blocks, total_supply, supply_of}
use border.Chain.Validate.{Verdict, valid, validate_block, compute_next_difficulty}
use border.Chain.Validate.Laws.{IsFreshProof, IsPayable, IsValidBlock, validate_block_iff}
use border.Chain.Produce.{
  create_block, unsealed_block, accept_block, add_block, pending_txs, or_pending, decided,
}

supply_of-append :
    (bs : List Block) (b : Block) → supply_of (bs ++ b ∷ []) ≡ supply_of bs +ℤ minted b.transactions
supply_of-append [] b = grind int_laws
supply_of-append (x ∷ bs) b = grind (int_laws, supply_of-append bs b)

module _ (rt : Runtime) where
  -- With a supply within the cap, accepting a block that `create_block` made keeps the total supply
  -- within the cap.
  pub create_block_within_cap :
      (miner : String) (ps : List BandwidthProof) (txs : List Transaction) (now : ℕ) (c : Chain)
      {b : Block}
      → create_block rt miner ps txs now c ≡ some b
      → total_supply c ≤ℤ pos max_supply
      → total_supply (accept_block b c) ≤ℤ pos max_supply
  unfolding create_block accept_block
  create_block_within_cap miner ps txs now c {b} made within = ground (
    arith,
    supply_of-append (blocks c) b,
    finalize_within_cap rt (total_supply c) (unsealed_block rt miner ps txs now c) within,
  )

  -- What a created block is, and that its bandwidth reaches the next difficulty.
  created :
      (miner : String) (ps : List BandwidthProof) (txs : List Transaction) (now : ℕ) (c : Chain)
      {b : Block}
      → create_block rt miner ps txs now c ≡ some b
      → (finalize rt (total_supply c) (unsealed_block rt miner ps txs now c) ≡ b)
        × (compute_next_difficulty c ≤ total_bytes (unsealed_block rt miner ps txs now c))
  unfolding create_block total_bytes unsealed_block
  created miner ps txs now c made = ground arith

  pending_txs-verified :
      (txs : List Transaction) (c : Chain)
      → All (λ tx. verify_tx rt tx ≡ true) (pending_txs rt txs c)
  pending_txs-verified txs c = sorted-All _ _ _ (
      All-map _ _ (λ tx e. ground arith) _
        (keep-All (λ _. Unit {0}) _ (or_pending txs c.mempool) (All-trivial _)))

  finalize-IsValidBlock :
      (miner : String) (ps : List BandwidthProof) (txs : List Transaction) (now : ℕ) (c : Chain)
      → compute_next_difficulty c ≤ total_bytes (unsealed_block rt miner ps txs now c)
      → All (λ p. verify_bandwidth rt p ≡ true) (or_pending ps c.pending_proofs)
      → All (λ p. verify_storage rt p ≡ true) c.pending_storage_proofs
      → IsValidBlock rt c (finalize rt (total_supply c) (unsealed_block rt miner ps txs now c))
  unfolding finalize unsealed_block total_bytes
  finalize-IsValidBlock miner ps txs now c enough signed stored = record {
    at_end = refl;
    linked = refl;
    difficult = refl;
    sealed = finalize_sealed rt (total_supply c) (unsealed_block rt miner ps txs now c);
    enough = enough;
    fresh =
        All-map _ (IsFreshProof rt c.spent_receipts) (λ p e. ground arith) _
          (keep-All _ _ (or_pending ps c.pending_proofs) signed);
    stored = All-map _ _ (λ p e. e.1) _ (keep-All _ _ c.pending_storage_proofs stored);
    payable = (
      inl (unfold Transaction.coinbase in refl),
      All-map _ (IsPayable rt) (λ tx e. inr e) _
          (user_txs-All rt _ (pending_txs rt txs c) (pending_txs-verified txs c)),
    );
  }

  -- When the bandwidth proofs that are offered, or those that wait where none is, and the storage
  -- proofs that wait are signed, `add_block` of the same chain accepts the block that
  -- `create_block` makes.
  pub create_block_accepted :
      (miner : String) (ps : List BandwidthProof) (txs : List Transaction) (now : ℕ) (c : Chain)
      {b : Block}
      → create_block rt miner ps txs now c ≡ some b
      → All (λ p. verify_bandwidth rt p ≡ true) (or_pending ps c.pending_proofs)
      → All (λ p. verify_storage rt p ≡ true) c.pending_storage_proofs
      → add_block rt b c ≡ (valid, accept_block b c)
  unfolding add_block
  create_block_accepted miner ps txs now c {b} made signed stored =
      let (is, enough) = created miner ps txs now c made in
      let ok : validate_block rt c b ≡ valid = (validate_block_iff rt c b).1 (
        subst (IsValidBlock rt c) is
          (finalize-IsValidBlock miner ps txs now c enough signed stored)) in
      rw ok (unfold decided in refl)

  -- Some unsigned proof passes the filter of spent receipts.
  abbrev pub is_poison : Chain → BandwidthProof → Bool
  is_poison c p = not (contains p.receipt_id c.spent_receipts) && not (verify_bandwidth rt p)

  poisoned :
      (c : Chain) (ps : List BandwidthProof)
      → some_of (is_poison c) ps ≡ true
      → All
          (IsFreshProof rt c.spent_receipts)
          (keep (λ p. not (contains p.receipt_id c.spent_receipts)) ps)
      → ⊥
  poisoned c [] h a = cc
  poisoned c (p ∷ ps) h a = elim (Bool-cases (contains p.receipt_id c.spent_receipts)) [
    | inl spent ↦ poisoned c ps (ground arith) (rw spent at a)
    | inr unspent ↦
        let a' = rw unspent at a in poisoned c ps (let signed = a'.0.1 in ground arith) a'.1
  ]

  refused : (v : Verdict) (b : Block) (c : Chain) → v ≢ valid → decided v b c ≡ (v, c)
  unfolding decided
  refused valid b c h = absurd (h refl)
  refused _ b c h = refl

  fresh-bandwidth_proofs :
      (miner : String) (txs : List Transaction) (now : ℕ) (c : Chain)
      → IsValidBlock rt c (finalize rt (total_supply c) (unsealed_block rt miner [] txs now c))
      → All
          (IsFreshProof rt c.spent_receipts)
          (keep (λ p. not (contains p.receipt_id c.spent_receipts)) c.pending_proofs)
  unfolding finalize unsealed_block
  fresh-bandwidth_proofs miner txs now c v = v.fresh

  -- While one unsigned proof with an unspent receipt waits in the pool, every block that
  -- `create_block` makes from the pool is refused by `add_block`, which leaves the chain and its
  -- pool as they are.
  pub unsigned_proof_blocks_production :
      (miner : String) (txs : List Transaction) (now : ℕ) (c : Chain) {b : Block}
      → some_of (is_poison c) c.pending_proofs ≡ true
      → create_block rt miner [] txs now c ≡ some b
      → ((add_block rt b c).0 ≢ valid) × ((add_block rt b c).1 ≡ c)
  unfolding add_block
  unsigned_proof_blocks_production miner txs now c {b} poison made =
      let (is, _) = created miner [] txs now c made in
      let not_ok : validate_block rt c b ≢ valid = λ ok. poisoned c c.pending_proofs poison (
        fresh-bandwidth_proofs miner txs now c
          (subst (IsValidBlock rt c) (sym is) ((validate_block_iff rt c b).0 ok))) in
      let e = refused (validate_block rt c b) b c not_ok in rw e (not_ok, refl)

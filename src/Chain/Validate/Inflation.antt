-- ===== src/Chain/Validate/Inflation.antt =====
-- What `_validate_block` of border/blockchain/chain.py leaves untested.
use border.Prelude.{String, ◌≡◌, refl, ap, subst, List, ◌∷◌, inl, map, All, ◌+◌, arith}
use border.Prelude.Int.{ℤ, ◌+ℤ◌}
use border.Runtime.{Runtime}
use border.Transaction
use border.Transaction.{Transaction}
use border.Proofs.{BandwidthProof, ComputeProof}
use border.Block.{Block, sum, compute_hash, minted, total_bytes}
use border.Block.Reward.{compute_hash-reseal}
use border.Chain.{Chain}
use border.Chain.Validate.{valid, validate_block}
use border.Chain.Validate.Laws.{IsFreshProof, validate_block_iff}

module _ (rt : Runtime) where
  -- A block with one more coinbase, hashed anew.
  abbrev pub with_coinbase : Block → String → ℤ → String → Block
  with_coinbase b to reward id =
      let more = record b {
        transactions = Transaction.coinbase rt to reward id ∷ b.transactions;
      } in
      record more { block_hash = compute_hash rt more }

  -- To a valid block a coinbase of any amount can be added, for any address, and the block, hashed
  -- anew, stays valid and mints that much more.
  pub any_coinbase_is_valid :
      (c : Chain) (b : Block) (to : String) (reward : ℤ) (id : String)
      → validate_block rt c b ≡ valid
      → (validate_block rt c (with_coinbase b to reward id) ≡ valid)
        × (minted (with_coinbase b to reward id).transactions ≡ reward +ℤ minted b.transactions)
  unfolding Transaction.coinbase total_bytes
  any_coinbase_is_valid c b to reward id ok =
      let v = (validate_block_iff rt c b).0 ok in
      let more = record b {
        transactions = Transaction.coinbase rt to reward id ∷ b.transactions;
      } in
      (
        (validate_block_iff rt c (with_coinbase b to reward id)).1 (record {
          at_end = v.at_end;
          linked = v.linked;
          difficult = v.difficult;
          sealed = compute_hash-reseal rt more (compute_hash rt more);
          enough = v.enough;
          fresh = v.fresh;
          stored = v.stored;
          payable = (inl refl, v.payable);
        }),
        refl,
      )

  -- A block with other bandwidth and compute proofs, hashed anew.
  abbrev pub with_proofs : Block → List BandwidthProof → List ComputeProof → Block
  with_proofs b ps cs =
      let more : Block = record b { bandwidth_proofs = ps; compute_proofs = cs } in
      record more { block_hash = compute_hash rt more }

  -- A valid block, hashed anew with any other compute proofs, stays valid.
  pub any_compute_proof_is_valid :
      (c : Chain) (b : Block) (cs : List ComputeProof)
      → validate_block rt c b ≡ valid
      → validate_block rt c (with_proofs b b.bandwidth_proofs cs) ≡ valid
  any_compute_proof_is_valid c b cs ok =
      let v = (validate_block_iff rt c b).0 ok in
      let more : Block = record b { compute_proofs = cs } in
      (validate_block_iff rt c (with_proofs b b.bandwidth_proofs cs)).1 (record {
        at_end = v.at_end;
        linked = v.linked;
        difficult = v.difficult;
        sealed = compute_hash-reseal rt more (compute_hash rt more);
        enough = unfold total_bytes in v.enough;
        fresh = v.fresh;
        stored = v.stored;
        payable = v.payable;
      })

  -- A valid block, hashed anew with its first bandwidth proof repeated, stays valid, and the bytes
  -- of that proof count twice.
  pub repeated_receipt_is_valid :
      (c : Chain) (b : Block) (p : BandwidthProof) (ps : List BandwidthProof)
      → validate_block rt c b ≡ valid
      → b.bandwidth_proofs ≡ p ∷ ps
      → let twice = with_proofs b (p ∷ p ∷ ps) b.compute_proofs in
        (validate_block rt c twice ≡ valid)
        × (total_bytes twice ≡ p.bytes_forwarded + total_bytes b)
  unfolding total_bytes
  repeated_receipt_is_valid c b p ps ok e =
      let v = (validate_block_iff rt c b).0 ok in
      let more : Block = record b { bandwidth_proofs = p ∷ p ∷ ps } in
      let checked : All (IsFreshProof rt c.spent_receipts) (p ∷ ps) =
        subst (All (IsFreshProof rt c.spent_receipts)) e v.fresh in
      let bytes : sum (map (λ p. p.bytes_forwarded) b.bandwidth_proofs)
          ≡ sum (map (λ p. p.bytes_forwarded) (p ∷ ps)) =
        ap (λ ps. sum (map (λ p. p.bytes_forwarded) ps)) e in
      (
        (validate_block_iff rt c (with_proofs b (p ∷ p ∷ ps) b.compute_proofs)).1 (record {
          at_end = v.at_end;
          linked = v.linked;
          difficult = v.difficult;
          sealed = compute_hash-reseal rt more (compute_hash rt more);
          enough = omega (arith, bytes, v.enough);
          fresh = (checked.0, checked);
          stored = v.stored;
          payable = v.payable;
        }),
        rw bytes refl,
      )

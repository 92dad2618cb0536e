-- ===== src/Chain/Tests.antt =====
-- The theorems on the chain at concrete chains.
use border.Prelude.{
  ◌+◌, ◌≡◌, ◌≢◌, ◌↔◌, ◌⊎◌, ◌++◌, Bool, refl, ap, String, All, true, false, some, [], ◌∷◌, arith,
  map, eq_iff,
}
use border.Prelude.Int.{pos, negsuc, ◌+ℤ◌, ◌-ℤ◌, ◌≤ℤ◌, ◌<ℤ◌}
use border.Prelude.Dict.{get, get_or, contains}
use border.Wallet.{verify, key_matches_address, derive_address}
use border.Economics.{max_supply, min_fee_per_tx}
use border.Transaction
use border.Transaction.{Transaction, verify_tx, validate_fee, is_coinbase}
use border.Proofs.{BandwidthProof, ComputeProof, verify_bandwidth}
use border.Block.{Block, genesis, finalize, minted, total_bytes}
use border.Block.Unsigned.{strip}
use border.Chain.{Chain, Stake, get_staked, blocks, total_supply, get_balance}
use border.Chain.Balance.{plus, minus, apply_tx_to_cache, apply_txs, rebuild_balance_cache}
use border.Chain.Balance.Laws.{apply_tx_to_cache_undo, apply_txs_conserve, sum_values, fees}
use border.Chain.Intake.{add_proof, add_transaction, reserved}
use border.Chain.Validate.{
  valid, validate_block, compute_next_difficulty, expected_difficulty, validate_chain,
  validate_from, validate_blocks, chain_valid,
}
use border.Chain.Validate.Laws.{IsValidBlock, validate_block_iff}
use border.Chain.Validate.Inflation.{
  with_coinbase, any_coinbase_is_valid, with_proofs, any_compute_proof_is_valid,
  repeated_receipt_is_valid,
}
use border.Chain.Staking.{stake, unstake, slash, slashed, released, stake_checked, stake_minimum}
use border.Chain.Staking.Laws.{stake_adds, slash_takes, slash_frees_coins, unstake_releases}
use border.Chain.Intake.Laws.{
  IsReserved, add_transaction-IsReserved, add_transaction_accepts_iff,
  add_transaction_ignores_stakes, negative_amount_accepted,
}
use border.Chain.Validate.Extend.{validate_chain-add}
use border.Chain.Produce.{create_block, accept_block, add_block, unsealed_block}
use border.Chain.Produce.Laws.{
  create_block_within_cap, create_block_accepted, unsigned_proof_blocks_production,
}
use border.Chain.Reorg.{replace_chain, initial_chain, all_receipts}
use border.Chain.Reorg.Laws.{IsSound, add_block_fresh, initial_chain-IsSound}
use border.Chain.Reorg.Unsigned.{replace_chain_ignores_signatures}
use border.Chain.Steps.{Step, Reach, Reach-IsSound}
use border.Samples.{toy, relayed, payment, ready, made, made-is, relayed-is_signed, made-is_valid}

Reach-IsSound_example : IsSound toy (add_block toy made (add_proof relayed (initial_chain toy)).1).1
Reach-IsSound_example =
    Reach-IsSound toy
      (Reach.next (Reach.next Reach.start (Step.added_proof relayed)) (Step.added_block made))

create_block_accepted_example : add_block toy made ready ≡ (valid, accept_block made ready)
create_block_accepted_example =
    create_block_accepted toy "BC_h" [] [] 5 ready made-is (relayed-is_signed, tt) tt

create_block_within_cap_example : total_supply (accept_block made ready) ≤ℤ pos max_supply
unfolding genesis
create_block_within_cap_example =
    create_block_within_cap toy "BC_h" [] [] 5 ready made-is
      (unfold Transaction.coinbase ◌+ℤ◌ in ground arith)

validate_block_iff_example : (validate_block toy ready made ≡ valid) ↔ IsValidBlock toy ready made
validate_block_iff_example = validate_block_iff toy ready made

validate_chain-add_example : validate_blocks toy ready.first (made ∷ []) ≡ chain_valid
validate_chain-add_example =
    validate_chain-add toy ready made (unfold validate_chain validate_blocks validate_from in refl)
      made-is_valid

made-is_first : create_block toy "BC_h" (relayed ∷ []) [] 5 (initial_chain toy) ≡ some made
unfolding create_block unsealed_block compute_next_difficulty expected_difficulty genesis
    initial_chain rebuild_balance_cache
made-is_first = refl

add_block_fresh_example :
    All
      (λ p. contains p.receipt_id (all_receipts (blocks (initial_chain toy))) ≡ false)
      made.bandwidth_proofs
unfolding initial_chain rebuild_balance_cache
add_block_fresh_example = add_block_fresh toy made (initial_chain toy) (initial_chain-IsSound toy) (
    ap (λ r. r.0)
      (create_block_accepted toy "BC_h" (relayed ∷ []) [] 5 (initial_chain toy) made-is_first
        (relayed-is_signed, tt) tt))

ready-IsReserved : IsReserved ready
unfolding get_or get
ready-IsReserved = record { exact = λ a. refl; covered = λ a. unfold get_balance in ground arith }

add_transaction-IsReserved_example : IsReserved (add_transaction toy payment ready).1
add_transaction-IsReserved_example = add_transaction-IsReserved toy payment ready ready-IsReserved

abbrev offered : Bool × Chain
offered = add_transaction toy payment ready

add_transaction_accepts_iff_example :
    ((offered.0 ≡ true) ↔ (
      (verify_tx toy payment ≡ true)
      × ((is_coinbase payment ≡ true) ⊎ (pos min_fee_per_tx ≤ℤ payment.fee))
      × (payment.amount +ℤ payment.fee ≤ℤ get_balance "BC_h" ready -ℤ reserved "BC_h" ready)))
    × (offered.0 ≡ true
        → (offered.1.mempool ≡ ready.mempool ++ payment ∷ [])
          × (reserved "BC_h" offered.1 ≡ reserved "BC_h" ready +ℤ (payment.amount +ℤ payment.fee)))
    × (offered.0 ≡ false → offered.1 ≡ ready)
add_transaction_accepts_iff_example = add_transaction_accepts_iff toy payment ready

add_transaction_ignores_stakes_example :
    (add_transaction toy payment (record ready {
      stakes = ("BC_h", record { amount = pos 500_000_000; role = "infer"; locked_at = 1 }) ∷ [];
    })).0
    ≡ (add_transaction toy payment ready).0
add_transaction_ignores_stakes_example =
    add_transaction_ignores_stakes toy payment ready
      (("BC_h", record { amount = pos 500_000_000; role = "infer"; locked_at = 1 }) ∷ [])

abbrev drain : Transaction
drain = record payment { amount = negsuc 99 }

negative_amount_accepted_example :
    ((add_transaction toy drain ready).0 ≡ true)
    × (get_or "BC_b" (pos 0) (apply_tx_to_cache drain plus ready.balance_cache)
        <ℤ get_balance "BC_b" ready)
negative_amount_accepted_example =
    negative_amount_accepted toy drain ready
      (unfold verify_tx verify key_matches_address derive_address in refl) (omega arith)
      (omega arith) (unfold get_balance get_or get ◌+ℤ◌ ◌-ℤ◌ in ground arith) refl
      (λ e. ground (arith, eq_iff "BC_h" "BC_b"))

apply_tx_to_cache_undo_example :
    get_or "BC_b"
      (pos 0)
      (apply_tx_to_cache payment minus (apply_tx_to_cache payment plus ready.balance_cache))
    ≡ get_or "BC_b" (pos 0) ready.balance_cache
apply_tx_to_cache_undo_example = apply_tx_to_cache_undo payment "BC_b" ready.balance_cache

apply_txs_conserve_example :
    sum_values (apply_txs (payment ∷ []) ready.balance_cache) +ℤ fees (payment ∷ [])
    ≡ sum_values ready.balance_cache +ℤ minted (payment ∷ [])
apply_txs_conserve_example =
    apply_txs_conserve (payment ∷ []) ready.balance_cache ((refl, refl), tt)

replace_chain_ignores_signatures_example :
    (replace_chain toy (map strip (genesis toy ∷ made ∷ [])) ready).0
    ≡ (replace_chain toy (genesis toy ∷ made ∷ []) ready).0
replace_chain_ignores_signatures_example =
    replace_chain_ignores_signatures toy (genesis toy ∷ made ∷ []) ready

any_coinbase_is_valid_example :
    (validate_block toy ready (with_coinbase toy made "BC_x" (pos 99) "id") ≡ valid)
    × (minted (with_coinbase toy made "BC_x" (pos 99) "id").transactions
        ≡ pos 99 +ℤ minted made.transactions)
any_coinbase_is_valid_example =
    any_coinbase_is_valid toy ready made "BC_x" (pos 99) "id" made-is_valid

abbrev unsigned : BandwidthProof
unsigned = record relayed { relay_signature = "" }

abbrev blocked : Chain
blocked = record ready { pending_proofs = unsigned ∷ [] }

abbrev refused_block : Block
refused_block = finalize toy (total_supply blocked) (unsealed_block toy "BC_h" [] [] 5 blocked)

unsigned_proof_blocks_production_example :
    ((add_block toy refused_block blocked).0 ≢ valid)
    × ((add_block toy refused_block blocked).1 ≡ blocked)
unsigned_proof_blocks_production_example =
    unsigned_proof_blocks_production toy "BC_h" [] 5 blocked (unfold verify_bandwidth in refl)
      (unfold create_block compute_next_difficulty expected_difficulty genesis in refl)

stake_adds_example :
    let c' = (stake toy "BC_h" (pos 100_000_000) "relay" 1 ready).1 in
    (get_staked "BC_h" c' ≡ get_staked "BC_h" ready +ℤ pos 100_000_000)
    × ((j : String) → j ≢ "BC_h" → get_staked j c' ≡ get_staked j ready)
    × (get_staked "BC_h" c' ≤ℤ get_balance "BC_h" c')
stake_adds_example =
    stake_adds toy "BC_h" (pos 100_000_000) "relay" 1 ready
      (unfold stake stake_checked stake_minimum get_balance get_staked get_or get ◌+ℤ◌ ◌-ℤ◌ in refl)

abbrev deposit : Stake
deposit = record { amount = pos 300; role = "relay"; locked_at = 1 }

abbrev staking : Chain
staking = record ready { stakes = ("BC_h", deposit) ∷ [] }

slash_takes_example :
    let (reply, c') = slash "BC_h" (pos 200) "late" 2 staking in
    (reply ≡ slashed (pos 200))
    × (get_staked "BC_h" c' +ℤ pos 200 ≡ pos 300)
    × (pos 0 ≤ℤ get_staked "BC_h" c')
    × ((j : String) → j ≢ "BC_h" → get_staked j c' ≡ get_staked j staking)
    × (c'.slash_log
        ≡ record { address = "BC_h"; amount = pos 200; reason = "late"; timestamp = 2 } ∷ [])
slash_takes_example =
    slash_takes "BC_h" (pos 200) "late" 2 staking deposit (unfold get in refl) (omega arith)
      (omega arith)

unstake_releases_example :
    let (reply, c') = unstake "BC_h" staking in
    (reply ≡ released (pos 300))
    × (get_staked "BC_h" c' ≡ pos 0)
    × ((j : String) → j ≢ "BC_h" → get_staked j c' ≡ get_staked j staking)
unstake_releases_example = unstake_releases "BC_h" staking deposit (unfold get in refl)

slash_frees_coins_example :
    let c' = (slash "BC_h" (pos 200) "late" 2 staking).1 in
    (get_balance "BC_h" c' ≡ get_balance "BC_h" staking)
    × (get_balance "BC_h" c' -ℤ get_staked "BC_h" c'
        ≡ get_balance "BC_h" staking -ℤ get_staked "BC_h" staking +ℤ pos 200)
slash_frees_coins_example =
    slash_frees_coins "BC_h" (pos 200) "late" 2 staking deposit (unfold get in refl) (omega arith)
      (omega arith)

abbrev invented : ComputeProof
invented = record {
  proof_id = "p1";
  job_id = "j1";
  worker_address = "BC_x";
  client_address = "BC_y";
  compute_seconds = 0;
  bytes_processed = 0;
  input_hash = "a";
  output_hash = "b";
  timestamp = 5;
  price_bc = pos 99;
}

any_compute_proof_is_valid_example :
    validate_block toy ready (with_proofs toy made made.bandwidth_proofs (invented ∷ [])) ≡ valid
any_compute_proof_is_valid_example =
    any_compute_proof_is_valid toy ready made (invented ∷ []) made-is_valid

repeated_receipt_is_valid_example :
    let twice = with_proofs toy made (relayed ∷ relayed ∷ []) made.compute_proofs in
    (validate_block toy ready twice ≡ valid)
    × (total_bytes twice ≡ relayed.bytes_forwarded + total_bytes made)
repeated_receipt_is_valid_example =
    repeated_receipt_is_valid toy ready made relayed [] made-is_valid
      (unfold finalize unsealed_block in refl)

-- ===== src/Chain/Intake.antt =====
-- Intake: proofs and transactions that wait for a block.
pub mod Laws
use border.Prelude.{
  String, Bool, true, false, not, ◌||◌, ◌&&◌, List, [], ◌∷◌, ◌++◌, some_of, str_eq, if◌then◌else◌,
}
use border.Prelude.Int.{ℤ, pos, ◌+ℤ◌, ◌-ℤ◌, ltb_ℤ}
use border.Prelude.Dict.{contains, put, get_or}
use border.Runtime.{Runtime}
use border.Transaction.{Transaction, verify_tx, validate_fee}
use border.Proofs.{BandwidthProof, ComputeProof, StorageProof, verify_storage}
use border.Chain.{Chain, get_balance}
use border.Chain.Staking.{has_minimum_stake}

unfoldable pub add_proof : BandwidthProof → Chain → Bool × Chain
add_proof proof c =
    if contains proof.receipt_id c.spent_receipts
    then (false, c)
    else (if some_of (λ p. str_eq p.receipt_id proof.receipt_id) c.pending_proofs
        then (false, c)
        else (true, record c { pending_proofs = c.pending_proofs ++ proof ∷ [] }))

unfoldable pub add_compute_proof : Runtime → ComputeProof → Chain → Bool × Chain
add_compute_proof rt proof c =
    if contains proof.proof_id c.spent_compute_proofs
    then (false, c)
    else (if some_of (λ p. str_eq p.proof_id proof.proof_id) c.pending_compute_proofs
        then (false, c)
        else (if has_minimum_stake rt proof.worker_address "compute" c
            then (
              true,
              record c { pending_compute_proofs = c.pending_compute_proofs ++ proof ∷ [] },
            )
            else (false, c)))

unfoldable pub add_storage_proof : Runtime → StorageProof → Chain → Bool × Chain
add_storage_proof rt proof c =
    if contains proof.proof_id c.spent_storage_proofs
    then (false, c)
    else (if some_of (λ p. str_eq p.proof_id proof.proof_id) c.pending_storage_proofs
        then (false, c)
        else (if verify_storage rt proof
            then (
              true,
              record c { pending_storage_proofs = c.pending_storage_proofs ++ proof ∷ [] },
            )
            else (false, c)))

-- What a transaction takes from its sender.
abbrev pub cost : Transaction → ℤ
cost tx = tx.amount +ℤ tx.fee

abbrev pub reserved : String → Chain → ℤ
reserved address c = get_or address (pos 0) c.mempool_reserved

unfoldable pub add_transaction : Runtime → Transaction → Chain → Bool × Chain
add_transaction rt tx c =
    let available = get_balance tx.from_address c -ℤ reserved tx.from_address c in
    if not (verify_tx rt tx)
    then (false, c)
    else (if not (validate_fee tx)
        then (false, c)
        else (if ltb_ℤ available (cost tx) then (false, c) else (
          true,
          record c {
            mempool = c.mempool ++ tx ∷ [];
            mempool_reserved =
                put tx.from_address (reserved tx.from_address c +ℤ cost tx) c.mempool_reserved;
          },
        )))

-- ===== src/Compute/Market/Payable.antt =====
-- When the market pays a proof, and how much.
use border.Prelude.{
  ℕ, ◌≡◌, refl, sym, subst, ◌↔◌, ◌⊎◌, String, true, Option, none, some, arith, eq_iff,
}
use mathlib.Core.Option.{some-injective}
use border.Prelude.Int.{ℤ, pos, ◌≤ℤ◌, ◌+ℤ◌, +ℤ_parts}
use border.Prelude.Dict.{get}
use border.Runtime.{Runtime}
use border.Transaction.{is_empty}
use border.Compute.{ComputeJob, ComputeProof, JobStatus, input_hash, verify_signature}
use border.Compute.Market.{
  Market, Refusal, accepted, is_worker, submit_proof, submit_proof_on, settle, refusal, bc_earned,
}

-- What a proof has to be for the market to pay it.
pub record IsPayable (rt : Runtime) (p : ComputeProof) (job : ComputeJob) (m : Market)
    : Type 0 where
  pub assigned : job.status ≡ JobStatus.assigned
  pub worker : job.worker_address ≡ some p.worker_address
  pub fresh : get p.job_id m.proofs ≡ none
  pub signed : (is_empty p.worker_public_key ≡ true) ⊎ (verify_signature rt p ≡ true)
  pub hash : p.input_hash ≡ input_hash rt job

is_worker_iff : (a : Option String) (s : String) → (is_worker a s ≡ true) ↔ (a ≡ some s)
is_worker_iff none s = ground arith
is_worker_iff (some a) s = ground (arith, eq_iff a s)

refusal_iff :
    (rt : Runtime) (p : ComputeProof) (job : ComputeJob) (m : Market)
    → (refusal rt p job m ≡ none) ↔ IsPayable rt p job m
unfolding refusal
refusal_iff rt p job m = ground (
  arith,
  eq_iff p.input_hash (input_hash rt job),
  is_worker_iff job.worker_address p.worker_address,
)

settle_iff :
    (rt : Runtime) (now : ℕ) (p : ComputeProof) (job : ComputeJob) (m : Market) (r : Option Refusal)
    (e : ℤ)
    → ((settle rt now p job m r).0 ≡ accepted e) ↔ ((r ≡ none) × (e ≡ bc_earned p job))
unfolding settle
settle_iff rt now p job m r e = ground arith

submit_proof_on_iff :
    (rt : Runtime) (now : ℕ) (p : ComputeProof) (m : Market) (e : ℤ) (o : Option ComputeJob)
    → ((submit_proof_on rt now p m o).0 ≡ accepted e)
      ↔ ((job : ComputeJob) × (o ≡ some job) × IsPayable rt p job m × (e ≡ bc_earned p job))
unfolding submit_proof_on
submit_proof_on_iff rt now p m e none = ground arith
submit_proof_on_iff rt now p m e (some job) =
    let settled = settle_iff rt now p job m (refusal rt p job m) e in
    let checked = refusal_iff rt p job m in
    (
      λ h. (job, refl, checked.0 (settled.0 h).0, (settled.0 h).1),
      λ (j, same, payable, earned). settled.1 (
          subst (λ k. (refusal rt p k m ≡ none) × (e ≡ bc_earned p k))
            (sym (some-injective job j same)) ((refusal_iff rt p j m).1 payable, earned)),
    )

-- A proof is accepted, for an amount, exactly if its job is known, is assigned to the worker that
-- the proof names, has no proof yet, has the input that the proof names, and the proof's signature
-- passes or it carries no key; the amount is then the capped reward.
pub submit_proof_iff :
    (rt : Runtime) (now : ℕ) (p : ComputeProof) (m : Market) (e : ℤ)
    → ((submit_proof rt now p m).0 ≡ accepted e) ↔ (
        (job : ComputeJob) × (get p.job_id m.jobs ≡ some job)
        × IsPayable rt p job m
        × (e ≡ bc_earned p job))
unfolding submit_proof
submit_proof_iff rt now p m e = submit_proof_on_iff rt now p m e (get p.job_id m.jobs)

-- A job's limit is not negative: then no proof earns more than twice of it.
pub bc_earned-within :
    (p : ComputeProof) (job : ComputeJob)
    → pos 0 ≤ℤ job.max_price_bc
    → bc_earned p job ≤ℤ job.max_price_bc +ℤ job.max_price_bc
unfolding bc_earned
bc_earned-within p job h = ground (arith, +ℤ_parts job.max_price_bc job.max_price_bc)

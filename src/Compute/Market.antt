-- ===== src/Compute/Market.antt =====
-- `ComputeMarket` of border/compute/market.py: the queue of jobs, their assignment to workers, and
-- the proofs with the payments that they trigger.
pub mod Laws
pub mod Payable
pub mod Failure
use border.Prelude.{
  ℕ, ◌+◌, String, Bool, true, false, not, Option, none, some, List, [], ◌∷◌, ◌++◌, str_eq,
  if◌then◌else◌,
}
use border.Prelude.Int.{ℤ, pos, leb_ℤ, ltb_ℤ, ◌+ℤ◌}
use border.Prelude.Dict.{Dict, get, put, values}
use border.Runtime.{Runtime}
use border.Transaction.{is_empty}
use border.Compute.{
  JobStatus, ComputeJob, ComputeProof, Request, create, is_pending, is_assigned, is_expired,
  compute_reward_bc, input_hash, verify_signature,
}
use border.Compute.Worker.{
  BorderWorker, Registry, best_worker_for, record_completion, record_failure,
}

-- An entry of the payment log.
pub record Payment : Type 0 where
  pub job_id : String
  pub worker_address : String
  pub client_address : String
  pub bc_earned : ℤ
  pub timestamp : ℕ

-- The objects that Python changes in place live in `workers` and `jobs`, each under its own id.
pub record Market : Type 0 where
  pub workers : Registry
  pub jobs : Dict ComputeJob
  pub proofs : Dict ComputeProof
  pub payments : List Payment

-- The reasons that the calls return.
pub data Refusal : Type 0 where
  duplicate_job_id : Refusal
  price_not_positive : Refusal
  unknown_job_id : Refusal
  not_in_assigned_state : JobStatus → Refusal
  not_assigned_worker : Refusal
  already_submitted : Refusal
  invalid_signature : Refusal
  input_hash_mismatch : Refusal

-- The answer of `submit_proof`: refused with a reason, or accepted with the coins earned.
pub data Answer : Type 0 where
  refused : Refusal → Answer
  accepted : ℤ → Answer

-- `_try_assign` of a pending job, once the registry has named its worker.
abbrev pub assign_to : (now : ℕ) → ComputeJob → Market → Option BorderWorker → Bool × Market
assign_to now job m none = (false, m)
assign_to now job m (some w) = (
  true,
  record m {
    jobs =
        put job.job_id
          (record job {
            worker_address = some w.wallet_address;
            status = JobStatus.assigned;
            assigned_at = some now;
          })
          m.jobs;
    workers = put w.worker_id (record w { is_available = false }) m.workers;
  },
)

unfoldable pub try_assign : (now : ℕ) → ComputeJob → Market → Bool × Market
unfolding best_worker_for
try_assign now job m =
    if is_pending job.status
    then assign_to now job m (best_worker_for now job.min_vram_gb job.max_price_bc m.workers)
    else (false, m)

abbrev pub queue : (now : ℕ) → ComputeJob → Market → Market
unfolding try_assign
queue now job m = (try_assign now job (record m { jobs = put job.job_id job m.jobs })).1

-- `none` is "accepted".
abbrev pub submit_on : (now : ℕ) → ComputeJob → Market → Option ComputeJob → Option Refusal × Market
unfolding try_assign
submit_on now job m (some old) = (some Refusal.duplicate_job_id, m)
submit_on now job m none =
    if leb_ℤ job.max_price_bc (pos 0)
    then (some Refusal.price_not_positive, m)
    else (none, queue now job m)

unfoldable pub submit_job : (now : ℕ) → ComputeJob → Market → Option Refusal × Market
unfolding submit_on
submit_job now job m = submit_on now job m (get job.job_id m.jobs)

abbrev pub is_worker : Option String → String → Bool
is_worker none address = false
is_worker (some a) address = str_eq a address

-- `_find_worker_by_address`: the first worker with the address.
abbrev pub find_first : String → List BorderWorker → Option BorderWorker
find_first address [] = none
find_first address (w ∷ ws) =
    if str_eq w.wallet_address address then some w else find_first address ws

unfoldable pub find_worker_by_address : Option String → Registry → Option BorderWorker
find_worker_by_address none workers = none
find_worker_by_address (some address) workers =
    if is_empty address then none else find_first address (values workers)

abbrev pub change_worker : (BorderWorker → BorderWorker) → Option BorderWorker → Registry → Registry
change_worker f none workers = workers
change_worker f (some w) workers = put w.worker_id (f w) workers

-- The reward, capped: what is more than twice the client's limit falls to the limit.
unfoldable pub bc_earned : ComputeProof → ComputeJob → ℤ
unfolding compute_reward_bc
bc_earned p job =
    if ltb_ℤ (job.max_price_bc +ℤ job.max_price_bc) (compute_reward_bc p)
    then job.max_price_bc
    else compute_reward_bc p

-- The end of `submit_proof`, for a proof that passed the checks.
unfoldable pub pay : (now : ℕ) → ComputeProof → ComputeJob → Market → Market
unfolding bc_earned find_worker_by_address record_completion
pay now p job m = record {
  workers =
      change_worker (record_completion (bc_earned p job))
        (find_worker_by_address (some p.worker_address) m.workers) m.workers;
  jobs = put p.job_id (record job { status = JobStatus.completed; completed_at = some now }) m.jobs;
  proofs = put p.job_id p m.proofs;
  payments =
      m.payments
      ++ record {
        job_id = p.job_id;
        worker_address = p.worker_address;
        client_address = p.client_address;
        bc_earned = bc_earned p job;
        timestamp = now;
      }
        ∷ [];
}

abbrev pub is_some : Option ComputeProof → Bool
is_some none = false
is_some (some p) = true

module _ (rt : Runtime) where
  -- The signature counts only where the proof carries a key.
  abbrev pub bad_signature : ComputeProof → Bool
  unfolding verify_signature
  bad_signature p = if is_empty p.worker_public_key then false else not (verify_signature rt p)

  -- The checks of `submit_proof` of a job that is known, in their order.
  unfoldable pub refusal : ComputeProof → ComputeJob → Market → Option Refusal
  unfolding bad_signature input_hash
  refusal p job m =
      if is_assigned job.status
      then (if is_worker job.worker_address p.worker_address
          then (if is_some (get p.job_id m.proofs)
              then some Refusal.already_submitted
              else (if bad_signature p
                  then some Refusal.invalid_signature
                  else (if str_eq p.input_hash (input_hash rt job)
                      then none
                      else some Refusal.input_hash_mismatch)))
          else some Refusal.not_assigned_worker)
      else some (Refusal.not_in_assigned_state job.status)

  abbrev pub settle :
      (now : ℕ) → ComputeProof → ComputeJob → Market → Option Refusal → Answer × Market
  unfolding pay
  settle now p job m (some r) = (Answer.refused r, m)
  settle now p job m none = (Answer.accepted (bc_earned p job), pay now p job m)

  abbrev pub submit_proof_on :
      (now : ℕ) → ComputeProof → Market → Option ComputeJob → Answer × Market
  unfolding refusal settle
  submit_proof_on now p m none = (Answer.refused Refusal.unknown_job_id, m)
  submit_proof_on now p m (some job) = settle now p job m (refusal p job m)

  unfoldable pub submit_proof : (now : ℕ) → ComputeProof → Market → Answer × Market
  unfolding submit_proof_on
  submit_proof now p m = submit_proof_on now p m (get p.job_id m.jobs)

abbrev pub request_of : ComputeJob → Request
request_of job = record {
  job_type = job.job_type;
  client_address = job.client_address;
  model_id = job.model_id;
  input_data = job.input_data;
  max_price_bc = job.max_price_bc;
  min_vram_gb = job.min_vram_gb;
}

abbrev pub fail_on :
    (fresh : String) (now : ℕ) (job_id reason : String) → Market → Option ComputeJob → Bool × Market
unfolding create try_assign record_failure find_worker_by_address
fail_on fresh now job_id reason m none = (false, m)
fail_on fresh now job_id reason m (some job) = (
  true,
  queue now (create fresh now (request_of job)) (record m {
    jobs = put job_id (record job { status = JobStatus.failed; error = some reason }) m.jobs;
    workers =
        change_worker record_failure (find_worker_by_address job.worker_address m.workers)
          m.workers;
  }),
)

-- `fail_job`, with the id of the job that takes the place of the failed one.
unfoldable pub fail_job :
    (fresh : String) (now : ℕ) (job_id reason : String) → Market → Bool × Market
unfolding fail_on
fail_job fresh now job_id reason m = fail_on fresh now job_id reason m (get job_id m.jobs)

-- Expires the jobs whose time is over, and counts them.
unfoldable pub expire : (now : ℕ) → Dict ComputeJob → ℕ × Dict ComputeJob
unfolding is_expired
expire now [] = (0, [])
expire now ((id, job) ∷ jobs) =
    let rest = expire now jobs in
    if is_expired now job
    then (rest.0 + 1, (id, record job { status = JobStatus.expired }) ∷ rest.1)
    else (rest.0, (id, job) ∷ rest.1)

unfoldable pub expire_stale_jobs : (now : ℕ) → Market → ℕ × Market
unfolding expire
expire_stale_jobs now m = let done = expire now m.jobs in (done.0, record m { jobs = done.1 })

abbrev pub counted : Bool → ℕ → ℕ
counted true n = n + 1
counted false n = n

-- The loop of `retry_pending_jobs` over the jobs: a turn changes no job but its own.
unfoldable pub retry : (now : ℕ) → List ComputeJob → ℕ → Market → ℕ × Market
unfolding try_assign
retry now [] n m = (n, m)
retry now (job ∷ jobs) n m =
    let one = try_assign now job m in retry now jobs (counted one.0 n) one.1

unfoldable pub retry_pending_jobs : (now : ℕ) → Market → ℕ × Market
unfolding retry
retry_pending_jobs now m = retry now (values m.jobs) 0 m

abbrev pub empty_market : Market
empty_market = record { workers = []; jobs = []; proofs = []; payments = [] }

-- ===== src/Compute/Market/Failure.antt =====
-- What `fail_job` does to a job, whatever its status.
use border.Prelude.{ℕ, ◌≡◌, String, false, none, some}
use border.Prelude.Dict.{get, put}
use border.Compute.Worker.{BorderWorker, Registry, best_worker_for, record_failure}
use border.Compute.{ComputeJob, JobStatus, create}
use border.Compute.Market.{Market, request_of, change_worker, find_worker_by_address}
use border.Compute.Market.Laws.{SameBooks}

-- The registry once the worker of the failed job is free again.
abbrev pub freed : ComputeJob → Market → Registry
freed job m =
    change_worker record_failure (find_worker_by_address job.worker_address m.workers) m.workers

-- The job is queued in `m`: it waits as it was made where no worker of `workers` can take it, or it
-- is assigned to the best one, which is then no longer available.
pub data IsQueued (now : ℕ) (job : ComputeJob) (workers : Registry) (m : Market) : Type 0 where
  waits :
      best_worker_for now job.min_vram_gb job.max_price_bc workers ≡ none
      → get job.job_id m.jobs ≡ some job
      → m.workers ≡ workers
      → IsQueued now job workers m
  goes_to :
      (w : BorderWorker)
      → best_worker_for now job.min_vram_gb job.max_price_bc workers ≡ some w
      → get job.job_id m.jobs
        ≡ some (record job {
          worker_address = some w.wallet_address;
          status = JobStatus.assigned;
          assigned_at = some now;
        })
      → m.workers ≡ put w.worker_id (record w { is_available = false }) workers
      → IsQueued now job workers m

-- The job is marked, no proof or payment goes, and a new job of the same request is queued.
pub record IsRetried (fresh : String) (now : ℕ) (job_id reason : String) (job : ComputeJob)
    (m m' : Market) : Type 0 where
  pub marked :
      get job_id m'.jobs ≡ some (record job { status = JobStatus.failed; error = some reason })
  pub books : SameBooks m m'
  pub queued : IsQueued now (create fresh now (request_of job)) (freed job m) m'

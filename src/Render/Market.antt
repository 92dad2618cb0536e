-- ===== src/Render/Market.antt =====
-- `RenderMarket` of border/render/market.py.
pub mod Best
use border.Prelude.{
  ℕ, ◌+◌, ◌*◌, String, Bool, true, false, not, ◌&&◌, Option, none, some, List, [], ◌∷◌, keep, leb,
  str_eq, if◌then◌else◌,
}
use border.Prelude.Int.{ℤ, pos, ltb_ℤ, ◌+ℤ◌}
use border.Prelude.Dict.{Dict, get, put, values, contains}
use border.Render.{RenderStatus, RenderJob, RenderResult, reward_bc}

-- The memory, the reputation and the speed are numbers of units of 10^-8.
pub record RenderWorker : Type 0 where
  pub worker_id : String
  pub wallet_address : String
  pub endpoint : String
  pub model_ids : List String
  pub total_vram_gb : ℕ
  pub stake_bc : ℤ
  pub frames_per_min : ℤ
  pub reputation : ℤ
  pub is_available : Bool
  pub jobs_completed : ℕ
  pub total_frames : ℕ
  pub registered_at : ℕ

-- Twice `stake_bc * 0.5 + reputation + frames_per_min`.
unfoldable pub score : RenderWorker → ℤ
score w = w.stake_bc +ℤ w.reputation +ℤ w.reputation +ℤ w.frames_per_min +ℤ w.frames_per_min

unfoldable pub can_serve : RenderJob → RenderWorker → Bool
can_serve job w =
    w.is_available
    && contains job.model_id w.model_ids
    && leb (job.min_vram_gb * 100_000_000) w.total_vram_gb

pub record RenderMarket : Type 0 where
  pub workers : Dict RenderWorker
  pub jobs : Dict RenderJob
  pub results : Dict RenderResult
  pub total_bc_paid : ℤ
  pub total_frames : ℕ

unfoldable pub register_worker : RenderWorker → RenderMarket → RenderMarket
unfolding put
register_worker w m = record m { workers = put w.worker_id w m.workers }

-- `max` of a list that begins with `w`: the first of those with the highest score.
abbrev pub max_of : RenderWorker → List RenderWorker → RenderWorker
unfolding score
max_of w [] = w
max_of w (v ∷ vs) = max_of (if ltb_ℤ (score w) (score v) then v else w) vs

abbrev pub first_best : List RenderWorker → Option RenderWorker
unfolding max_of
first_best [] = none
first_best (w ∷ ws) = some (max_of w ws)

unfoldable pub best_worker : RenderJob → Dict RenderWorker → Option RenderWorker
unfolding first_best can_serve
best_worker job workers = first_best (keep (can_serve job) (values workers))

abbrev pub assign_to : RenderJob → RenderMarket → Option RenderWorker → Option String × RenderMarket
assign_to job m none = (none, m)
assign_to job m (some w) = (
  some w.worker_id,
  record m {
    jobs =
        put job.job_id
          (record job { worker_address = some w.wallet_address; status = RenderStatus.assigned })
          m.jobs;
    workers = put w.worker_id (record w { is_available = false }) m.workers;
  },
)

-- The answer is the id of the worker, `none` for "no_worker_available".
unfoldable pub submit_job : RenderJob → RenderMarket → Option String × RenderMarket
unfolding best_worker put
submit_job job m =
    assign_to job (record m { jobs = put job.job_id job m.jobs }) (best_worker job m.workers)

abbrev pub find_first : String → List RenderWorker → Option RenderWorker
find_first address [] = none
find_first address (w ∷ ws) =
    if str_eq w.wallet_address address then some w else find_first address ws

abbrev pub served : RenderResult → Option RenderWorker → Dict RenderWorker → Dict RenderWorker
served r none workers = workers
served r (some w) workers =
    put w.worker_id
      (record w {
        is_available = true;
        jobs_completed = w.jobs_completed + 1;
        total_frames = w.total_frames + r.frames_rendered;
      })
      workers

-- The answer is the reward, `none` for "job_not_found".
abbrev pub submit_result_on :
    RenderResult → RenderMarket → Option RenderJob → Option ℤ × RenderMarket
unfolding reward_bc put
submit_result_on r m none = (none, m)
submit_result_on r m (some job) = (
  some (reward_bc r),
  record {
    workers = served r (find_first r.worker_address (values m.workers)) m.workers;
    jobs = put r.job_id (record job { status = RenderStatus.completed }) m.jobs;
    results = put r.result_id r m.results;
    total_bc_paid = m.total_bc_paid +ℤ reward_bc r;
    total_frames = m.total_frames + r.frames_rendered;
  },
)

unfoldable pub submit_result : RenderResult → RenderMarket → Option ℤ × RenderMarket
unfolding submit_result_on
submit_result r m = submit_result_on r m (get r.job_id m.jobs)

abbrev pub is_pending : RenderStatus → Bool
is_pending RenderStatus.pending = true
is_pending _ = false

abbrev pub counted : Option String → ℕ → ℕ
counted none n = n
counted (some id) n = n + 1

-- The loop of `retry_pending_jobs` over the jobs: a turn changes no job but its own.
unfoldable pub retry : List RenderJob → ℕ → RenderMarket → ℕ × RenderMarket
unfolding best_worker
retry [] n m = (n, m)
retry (job ∷ jobs) n m =
    let one =
      if is_pending job.status then assign_to job m (best_worker job m.workers) else (none, m) in
    retry jobs (counted one.0 n) one.1

unfoldable pub retry_pending_jobs : RenderMarket → ℕ × RenderMarket
unfolding retry
retry_pending_jobs m = retry (values m.jobs) 0 m

abbrev pub empty_market : RenderMarket
empty_market = record {
  workers = [];
  jobs = [];
  results = [];
  total_bc_paid = pos 0;
  total_frames = 0;
}

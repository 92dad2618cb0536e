-- ===== src/Compute/Worker.antt =====
-- The workers of border/compute/worker.py: what a worker can take, its score for a job, and the
-- registry that picks the best one.
pub mod Best
use border.Prelude.{
  ℕ, ◌+◌, ◌-◌, ◌*◌, String, Bool, true, false, ◌&&◌, Option, none, some, List, [], ◌∷◌, map, ltb,
  leb, ◌==◌, if◌then◌else◌,
}
use border.Prelude.Int.{ℤ, pos, pos_part, leb_ℤ, ◌+ℤ◌}
use border.Prelude.Round.{round_half_even}
use border.Prelude.Dict.{Dict, get, put, values}
use border.Prelude.Sort.{sorted}
use border.Compute.{GpuSpec}

pub record BorderWorker : Type 0 where
  pub worker_id : String
  pub wallet_address : String
  pub endpoint : String
  pub gpu_specs : List GpuSpec
  pub stake_bc : ℤ
  pub registered_at : ℕ
  pub last_seen : ℕ
  pub jobs_completed : ℕ
  pub jobs_failed : ℕ
  pub total_earned_bc : ℤ
  pub is_available : Bool
  pub region : String

abbrev pub Registry : Type 0
Registry = Dict BorderWorker

-- In units of 10^-4.
unfoldable pub reputation : BorderWorker → ℕ
unfolding round_half_even
reputation w =
    let total = w.jobs_completed + w.jobs_failed in
    if total == 0 then 5_000 else round_half_even (w.jobs_completed * 10_000) total

-- `max` of the memories, 0 where there is no GPU.
unfoldable pub max_vram : List GpuSpec → ℕ
max_vram [] = 0
max_vram (g ∷ gs) = let rest = max_vram gs in if ltb rest g.vram_gb then g.vram_gb else rest

unfoldable pub max_vram_gb : BorderWorker → ℕ
unfolding max_vram
max_vram_gb w = max_vram w.gpu_specs

-- MIN_STAKE_TO_WORK is one coin.
unfoldable pub is_trusted : BorderWorker → Bool
unfolding reputation
is_trusted w = leb_ℤ (pos 100_000_000) w.stake_bc && leb 3_000 (reputation w)

unfoldable pub is_online : (now : ℕ) → BorderWorker → Bool
is_online now w = ltb (now - w.last_seen) 60_000_000

unfoldable pub can_handle : (now min_vram_gb : ℕ) (max_price_bc : ℤ) → BorderWorker → Bool
unfolding is_trusted is_online max_vram_gb
can_handle now min_vram_gb max_price_bc w =
    w.is_available
    && is_online now w
    && is_trusted w
    && leb min_vram_gb (max_vram_gb w)
    && leb_ℤ (pos 0) max_price_bc

-- A score as a fraction: the numerator, in units of 10^-10, over `max(max_vram_gb, 1)`.
pub record Score : Type 0 where
  pub num : ℕ
  pub vram : ℕ

abbrev pub at_least_one : ℕ → ℕ
at_least_one n = if ltb n 1 then 1 else n

abbrev min_ℕ : ℕ → ℕ → ℕ
min_ℕ a b = if ltb b a then b else a

-- `none` is the -1.0 of a worker that cannot handle the job. The one that can has a stake of at
-- least one coin and enough memory, so that no term is negative.
unfoldable pub score_for_job :
    (now min_vram_gb : ℕ) (max_price_bc : ℤ) → BorderWorker → Option Score
unfolding can_handle reputation max_vram_gb
score_for_job now min_vram_gb max_price_bc w =
    if can_handle now min_vram_gb max_price_bc w
    then some (record {
      num =
          (reputation w * 500_000 + min_ℕ (pos_part w.stake_bc) 3_000_000_000)
            * at_least_one (max_vram_gb w)
          + (max_vram_gb w - min_vram_gb) * 2_000_000_000;
      vram = max_vram_gb w;
    })
    else none

-- Whether the first score is the higher one or equal: the key of a sort with `reverse=True`, which
-- leaves equal elements in their order.
abbrev pub score_ge : Score × BorderWorker → Score × BorderWorker → Bool
score_ge x y = leb (y.0.num * at_least_one x.0.vram) (x.0.num * at_least_one y.0.vram)

abbrev pub scored :
    Option Score → BorderWorker → List (Score × BorderWorker) → List (Score × BorderWorker)
scored none w rest = rest
scored (some s) w rest = (s, w) ∷ rest

-- The list of scored workers, less those with a negative score.
unfoldable pub candidates :
    (now min_vram_gb : ℕ) (max_price_bc : ℤ) → List BorderWorker → List (Score × BorderWorker)
unfolding score_for_job
candidates now min_vram_gb max_price_bc [] = []
candidates now min_vram_gb max_price_bc (w ∷ ws) =
    scored (score_for_job now min_vram_gb max_price_bc w) w
      (candidates now min_vram_gb max_price_bc ws)

abbrev pub first_worker : List (Score × BorderWorker) → Option BorderWorker
first_worker [] = none
first_worker ((s, w) ∷ rest) = some w

unfoldable pub best_worker_for :
    (now min_vram_gb : ℕ) (max_price_bc : ℤ) → Registry → Option BorderWorker
unfolding candidates sorted
best_worker_for now min_vram_gb max_price_bc workers =
    first_worker (sorted score_ge (candidates now min_vram_gb max_price_bc (values workers)))

-- `BorderWorker.heartbeat`
abbrev pub beat : (now : ℕ) → BorderWorker → BorderWorker
beat now w = record w { last_seen = now }

unfoldable pub record_completion : (earned_bc : ℤ) → BorderWorker → BorderWorker
record_completion earned_bc w = record w {
  jobs_completed = w.jobs_completed + 1;
  total_earned_bc = w.total_earned_bc +ℤ earned_bc;
  is_available = true;
}

unfoldable pub record_failure : BorderWorker → BorderWorker
record_failure w = record w { jobs_failed = w.jobs_failed + 1; is_available = true }

abbrev is_none : Option BorderWorker → Bool
is_none none = true
is_none (some w) = false

-- The answer is whether the worker is new.
unfoldable pub register : (now : ℕ) → BorderWorker → Registry → Bool × Registry
unfolding get put
register now w workers = (is_none (get w.worker_id workers), put w.worker_id (beat now w) workers)

unfoldable pub heartbeat : (now : ℕ) (worker_id : String) → Registry → Bool × Registry
unfolding get put
heartbeat now worker_id workers = elim (get worker_id workers) [
  | none ↦ (false, workers)
  | some w ↦ (true, put worker_id (beat now w) workers)
]

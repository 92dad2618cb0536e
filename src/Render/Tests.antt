-- ===== src/Render/Tests.antt =====
-- The theorems on the render market at one worker and one job.
use border.Prelude.{◌≡◌, refl, true, some, none, [], ◌∷◌}
use border.Prelude.Int.{pos}
use border.Prelude.Dict.{put, values}
use border.Runtime.{end}
use border.Render.{RenderType, RenderStatus, RenderJob}
use border.Render.Market.{RenderWorker, RenderMarket, empty_market, register_worker, best_worker}
use border.Render.Market.Best.{IsBest, best_worker-IsBest}

abbrev worker : RenderWorker
worker = record {
  worker_id = "w";
  wallet_address = "BC_w";
  endpoint = "e";
  model_ids = "sdxl" ∷ [];
  total_vram_gb = 1_200_000_000;
  stake_bc = pos 1_000_000_000;
  frames_per_min = pos 200_000_000;
  reputation = pos 0;
  is_available = true;
  jobs_completed = 0;
  total_frames = 0;
  registered_at = 5;
}

abbrev job : RenderJob
job = record {
  job_id = "j";
  render_type = RenderType.video;
  client_address = "BC_c";
  model_id = "sdxl";
  prompt = "p";
  negative_prompt = "";
  width = 1024;
  height = 1024;
  steps = 20;
  cfg_scale = pos 700_000_000;
  seed = pos 1;
  num_frames = 3;
  fps = 24;
  max_price_bc = pos 500_000;
  min_vram_gb = 8;
  extra_params = end;
  status = RenderStatus.pending;
  worker_address = none;
  created_at = 6;
}

abbrev joined : RenderMarket
joined = register_worker worker empty_market

worker-is_best : best_worker job joined.workers ≡ some worker
unfolding best_worker register_worker put
worker-is_best = refl

best_worker-IsBest_example : IsBest job (values joined.workers) worker
best_worker-IsBest_example = best_worker-IsBest job joined.workers worker worker-is_best

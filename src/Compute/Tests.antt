-- ===== src/Compute/Tests.antt =====
-- The theorems on the compute market at one worker and one job.
use border.Prelude.{◌≡◌, refl, true, some, [], ◌∷◌}
use border.Prelude.Int.{pos}
use border.Prelude.Dict.{get, put, values}
use border.Runtime.{end}
use border.Compute.{JobType, ComputeType, GpuSpec, ComputeJob, ComputeProof, Request, create}
use border.Compute.Worker.{BorderWorker, register, best_worker_for}
use border.Compute.Worker.Best.{IsBest, best_worker_for-IsBest}
use border.Compute.Market.{
  Market, Answer, empty_market, submit_job, submit_proof, fail_job, bc_earned, try_assign,
}
use border.Compute.Market.Laws.{Reach, Step, ArePaidOnce, Reach-ArePaidOnce}
use border.Compute.Market.Payable.{submit_proof_iff, IsPayable}
use border.Samples.{toy}

abbrev gpu : GpuSpec
gpu = record { gpu_id = "g"; name = "n"; vram_gb = 8; compute_type = ComputeType.cuda }

abbrev worker : BorderWorker
worker = record {
  worker_id = "w";
  wallet_address = "BC_w";
  endpoint = "e";
  gpu_specs = gpu ∷ [];
  stake_bc = pos 200_000_000;
  registered_at = 5;
  last_seen = 5;
  jobs_completed = 0;
  jobs_failed = 0;
  total_earned_bc = pos 0;
  is_available = true;
  region = "UNKNOWN";
}

abbrev request : Request
request = record {
  job_type = JobType.render;
  client_address = "BC_c";
  model_id = "m";
  input_data = end;
  max_price_bc = pos 1_000_000;
  min_vram_gb = 4;
}

abbrev job : ComputeJob
job = create "1" 6 request

abbrev joined : Market
joined = record empty_market { workers = (register 6 worker empty_market.workers).1 }

abbrev waiting : Market
waiting = (submit_job 7 job joined).1

abbrev done : ComputeProof
done = record {
  proof_id = "p";
  job_id = "job_1";
  job_type = JobType.render;
  worker_address = "BC_w";
  client_address = "BC_c";
  model_id = "m";
  compute_seconds = 1_800;
  gpu_name = "n";
  vram_used_gb = 8;
  bytes_processed = 0;
  input_hash = "h";
  output_hash = "o";
  timestamp = 8;
  worker_signature = "";
  worker_public_key = "";
  price_bc = pos 500_000;
}

abbrev paid : Market
paid = (submit_proof toy 9 done waiting).1

Reach-ArePaidOnce_example : ArePaidOnce (fail_job "2" 10 "job_1" "late" paid).1
Reach-ArePaidOnce_example = Reach-ArePaidOnce {rt = toy} (
    Reach.next
      (Reach.next
        (Reach.next (Reach.next Reach.start (Step.registered 6 worker)) (Step.submitted 7 job))
        (Step.proved 9 done))
      (Step.failed "2" 10 "job_1" "late"))

best-is_worker :
    best_worker_for 7 4 (pos 1_000_000) joined.workers ≡ some (record worker { last_seen = 6 })
unfolding best_worker_for register get put
best-is_worker = refl

best_worker_for-IsBest_example :
    IsBest 7 4 (pos 1_000_000) (values joined.workers) (record worker { last_seen = 6 })
best_worker_for-IsBest_example =
    best_worker_for-IsBest 7 4 (pos 1_000_000) joined.workers (record worker { last_seen = 6 })
      best-is_worker

done-is_paid : (submit_proof toy 9 done waiting).0 ≡ Answer.accepted (bc_earned done job)
unfolding submit_proof submit_job try_assign register get put create bc_earned
done-is_paid = refl

submit_proof_iff_example :
    (j : ComputeJob) × (get "job_1" waiting.jobs ≡ some j)
    × IsPayable toy done j waiting
    × (bc_earned done job ≡ bc_earned done j)
submit_proof_iff_example = (submit_proof_iff toy 9 done waiting (bc_earned done job)).0 done-is_paid

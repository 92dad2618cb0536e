-- ===== src/Compute.antt =====
-- The jobs and proofs of border/compute/job.py.
pub mod Worker
pub mod Market
pub mod Codec
mod Tests
use Prim.Native.String.{◌++◌}
use border.Prelude.{
  ℕ, ◌+◌, ◌-◌, ◌*◌, String, Bool, true, false, ◌||◌, ◌&&◌, Option, none, some, ltb, if◌then◌else◌,
}
use border.Prelude.Int.{ℤ, pos, pos_part}
use border.Prelude.Round.{round_half_even}
use border.Runtime.{Runtime, Fields, object, ◌>>=◌}
use border.Transaction.{is_empty}
use border.Proofs.{gigabyte}

pub data JobType : Type 0 where
  inference : JobType
  render : JobType
  train : JobType
  custom : JobType

pub data JobStatus : Type 0 where
  pending : JobStatus
  assigned : JobStatus
  completed : JobStatus
  failed : JobStatus
  expired : JobStatus

pub data ComputeType : Type 0 where
  cuda : ComputeType
  rocm : ComputeType
  opencl : ComputeType

pub record GpuSpec : Type 0 where
  pub gpu_id : String
  pub name : String
  pub vram_gb : ℕ
  pub compute_type : ComputeType

pub record ComputeJob : Type 0 where
  pub job_id : String
  pub job_type : JobType
  pub client_address : String
  pub model_id : String
  pub input_data : Fields
  pub max_price_bc : ℤ
  pub min_vram_gb : ℕ
  pub submitted_at : ℕ
  pub status : JobStatus
  pub worker_address : Option String
  pub assigned_at : Option ℕ
  pub completed_at : Option ℕ
  pub result : Option Fields
  pub error : Option String

pub record ComputeProof : Type 0 where
  pub proof_id : String
  pub job_id : String
  pub job_type : JobType
  pub worker_address : String
  pub client_address : String
  pub model_id : String
  -- in microseconds
  pub compute_seconds : ℕ
  pub gpu_name : String
  pub vram_used_gb : ℕ
  pub bytes_processed : ℕ
  pub input_hash : String
  pub output_hash : String
  pub timestamp : ℕ
  pub worker_signature : String
  pub worker_public_key : String
  pub price_bc : ℤ

-- What a client asks for: the arguments of `ComputeJob.create`.
pub record Request : Type 0 where
  pub job_type : JobType
  pub client_address : String
  pub model_id : String
  pub input_data : Fields
  pub max_price_bc : ℤ
  pub min_vram_gb : ℕ

-- `fresh` is the hex text of `uuid4`, `now` the time of the call.
unfoldable pub create : (fresh : String) (now : ℕ) → Request → ComputeJob
create fresh now r = record {
  job_id = "job_" ++ fresh;
  job_type = r.job_type;
  client_address = r.client_address;
  model_id = r.model_id;
  input_data = r.input_data;
  max_price_bc = r.max_price_bc;
  min_vram_gb = r.min_vram_gb;
  submitted_at = now;
  status = JobStatus.pending;
  worker_address = none;
  assigned_at = none;
  completed_at = none;
  result = none;
  error = none;
}

abbrev pub is_pending : JobStatus → Bool
is_pending JobStatus.pending = true
is_pending _ = false

abbrev pub is_assigned : JobStatus → Bool
is_assigned JobStatus.assigned = true
is_assigned _ = false

-- JOB_TIMEOUT_SECONDS, in microseconds
abbrev pub job_timeout : ℕ
job_timeout = 300_000_000

unfoldable pub is_expired : (now : ℕ) → ComputeJob → Bool
is_expired now job = is_pending job.status && ltb job_timeout (now - job.submitted_at)

-- `max(hours * 2.0 + gb * 0.1, price_bc)` over the denominator 18 * gigabyte, rounded: one
-- microsecond earns 1/18 of a unit.
unfoldable pub compute_reward_bc : ComputeProof → ℤ
unfolding round_half_even
compute_reward_bc p =
    let den = 18 * gigabyte in
    let earned = p.compute_seconds * gigabyte + p.bytes_processed * 10_000_000 * 18 in
    if ltb earned (pos_part p.price_bc * den) then p.price_bc else pos (round_half_even earned den)

module _ (rt : Runtime) where
  unfoldable pub input_hash : ComputeJob → String
  input_hash job = rt.hex (rt.sha256 (rt.encode (rt.dumps (object job.input_data))))

  unfoldable pub hash : ComputeProof → String
  hash p = rt.hex (
      rt.sha256 (
        rt.encode (
          p.job_id
          ++ ":"
          ++ p.worker_address
          ++ ":"
          ++ p.client_address
          ++ ":"
          ++ rt.show_seconds p.compute_seconds
          ++ ":"
          ++ p.input_hash
          ++ ":"
          ++ p.output_hash
          ++ ":"
          ++ rt.show_seconds p.timestamp)))

  -- An exception of a decoding counts as a failed check.
  passes : Option Bool → Bool
  passes none = false
  passes (some b) = b

  unfoldable pub verify_signature : ComputeProof → Bool
  unfolding passes hash
  verify_signature p =
      if is_empty p.worker_signature || is_empty p.worker_public_key
      then false
      else passes (do
        key ← rt.b64decode p.worker_public_key
        signature ← rt.b64decode p.worker_signature
        some (rt.ed25519_verify key signature (rt.encode (hash p))))

-- ===== src/Compute/Codec.antt =====
-- `to_dict` and `from_dict` of the classes of border/compute/job.py.
use border.Prelude.{ℕ, ◌≡◌, refl, String, Option, none, some, str_eq, if◌then◌else◌}
use border.Prelude.Int.{pos}
use border.Runtime.{
  Json, null, int, coins, seconds, text, object, Fields, end, field, find_or, text_or_null,
}
use border.Decoding.{
  Decoded, raised, foreign, read, required, as_int, as_coins, as_seconds, as_text, as_text?,
  as_object, as_text?-text_or_null, ◌>>=◌,
}
use border.Compute.{JobType, JobStatus, ComputeType, GpuSpec, ComputeJob, ComputeProof}

-- The values of the three enumerations.
abbrev pub type_name : JobType → String
type_name JobType.inference = "INFERENCE"
type_name JobType.render = "RENDER"
type_name JobType.train = "TRAIN"
type_name JobType.custom = "CUSTOM"

-- Python raises a ValueError for any other text.
abbrev pub type_of : String → Decoded JobType
type_of s =
    if str_eq s "INFERENCE"
    then read JobType.inference
    else (if str_eq s "RENDER"
        then read JobType.render
        else (if str_eq s "TRAIN"
            then read JobType.train
            else (if str_eq s "CUSTOM" then read JobType.custom else (raised))))

pub type_of-name : (x : JobType) → type_of (type_name x) ≡ read x
type_of-name JobType.inference = refl
type_of-name JobType.render = refl
type_of-name JobType.train = refl
type_of-name JobType.custom = refl

abbrev pub status_name : JobStatus → String
status_name JobStatus.pending = "PENDING"
status_name JobStatus.assigned = "ASSIGNED"
status_name JobStatus.completed = "COMPLETED"
status_name JobStatus.failed = "FAILED"
status_name JobStatus.expired = "EXPIRED"

-- Python raises a ValueError for any other text.
abbrev pub status_of : String → Decoded JobStatus
status_of s =
    if str_eq s "PENDING"
    then read JobStatus.pending
    else (if str_eq s "ASSIGNED"
        then read JobStatus.assigned
        else (if str_eq s "COMPLETED"
            then read JobStatus.completed
            else (if str_eq s "FAILED"
                then read JobStatus.failed
                else (if str_eq s "EXPIRED" then read JobStatus.expired else (raised)))))

pub status_of-name : (x : JobStatus) → status_of (status_name x) ≡ read x
status_of-name JobStatus.pending = refl
status_of-name JobStatus.assigned = refl
status_of-name JobStatus.completed = refl
status_of-name JobStatus.failed = refl
status_of-name JobStatus.expired = refl

abbrev pub compute_name : ComputeType → String
compute_name ComputeType.cuda = "CUDA"
compute_name ComputeType.rocm = "ROCM"
compute_name ComputeType.opencl = "OPENCL"

-- Python raises a ValueError for any other text.
abbrev pub compute_of : String → Decoded ComputeType
compute_of s =
    if str_eq s "CUDA"
    then read ComputeType.cuda
    else (if str_eq s "ROCM"
        then read ComputeType.rocm
        else (if str_eq s "OPENCL" then read ComputeType.opencl else (raised)))

pub compute_of-name : (x : ComputeType) → compute_of (compute_name x) ≡ read x
compute_of-name ComputeType.cuda = refl
compute_of-name ComputeType.rocm = refl
compute_of-name ComputeType.opencl = refl

abbrev pub seconds_or_null : Option ℕ → Json
seconds_or_null none = null
seconds_or_null (some t) = seconds t

abbrev pub as_seconds? : Json → Decoded (Option ℕ)
as_seconds? null = read none
as_seconds? (seconds t) = read (some t)
as_seconds? _ = foreign

abbrev pub object_or_null : Option Fields → Json
object_or_null none = null
object_or_null (some d) = object d

abbrev pub as_object? : Json → Decoded (Option Fields)
as_object? null = read none
as_object? (object d) = read (some d)
as_object? _ = foreign

pub as_seconds?-seconds_or_null : (t : Option ℕ) → as_seconds? (seconds_or_null t) ≡ read t
as_seconds?-seconds_or_null none = refl
as_seconds?-seconds_or_null (some t) = refl

as_object?-object_or_null : (d : Option Fields) → as_object? (object_or_null d) ≡ read d
as_object?-object_or_null none = refl
as_object?-object_or_null (some d) = refl

unfoldable pub gpu_to_dict : GpuSpec → Fields
gpu_to_dict g = field "gpu_id" (text g.gpu_id) (
    field "name" (text g.name) (
      field "vram_gb" (int g.vram_gb)
        (field "compute_type" (text (compute_name g.compute_type)) (end))))

unfoldable pub gpu_from_dict : Fields → Decoded GpuSpec
gpu_from_dict d = do
  gpu_id ← required "gpu_id" d >>= as_text
  name ← required "name" d >>= as_text
  vram_gb ← required "vram_gb" d >>= as_int
  compute_type ← required "compute_type" d >>= as_text >>= compute_of
  read (record { gpu_id = gpu_id; name = name; vram_gb = vram_gb; compute_type = compute_type })

unfoldable pub job_to_dict : ComputeJob → Fields
job_to_dict j = field "job_id" (text j.job_id) (
    field "job_type" (text (type_name j.job_type)) (
      field "client_address" (text j.client_address) (
        field "model_id" (text j.model_id) (
          field "input_data" (object j.input_data) (
            field "max_price_bc" (coins j.max_price_bc) (
              field "min_vram_gb" (int j.min_vram_gb) (
                field "submitted_at" (seconds j.submitted_at) (
                  field "status" (text (status_name j.status)) (
                    field "worker_address" (text_or_null j.worker_address) (
                      field "assigned_at" (seconds_or_null j.assigned_at) (
                        field "completed_at" (seconds_or_null j.completed_at) (
                          field "result" (object_or_null j.result)
                            (field "error" (text_or_null j.error) (end))))))))))))))

unfoldable pub job_from_dict : Fields → Decoded ComputeJob
job_from_dict d = do
  job_id ← required "job_id" d >>= as_text
  job_type ← required "job_type" d >>= as_text >>= type_of
  client_address ← required "client_address" d >>= as_text
  model_id ← required "model_id" d >>= as_text
  input_data ← required "input_data" d >>= as_object
  max_price_bc ← required "max_price_bc" d >>= as_coins
  min_vram_gb ← required "min_vram_gb" d >>= as_int
  submitted_at ← required "submitted_at" d >>= as_seconds
  status ← required "status" d >>= as_text >>= status_of
  worker_address ← as_text? (find_or "worker_address" null d)
  assigned_at ← as_seconds? (find_or "assigned_at" null d)
  completed_at ← as_seconds? (find_or "completed_at" null d)
  result ← as_object? (find_or "result" null d)
  error ← as_text? (find_or "error" null d)
  read (record {
    job_id = job_id;
    job_type = job_type;
    client_address = client_address;
    model_id = model_id;
    input_data = input_data;
    max_price_bc = max_price_bc;
    min_vram_gb = min_vram_gb;
    submitted_at = submitted_at;
    status = status;
    worker_address = worker_address;
    assigned_at = assigned_at;
    completed_at = completed_at;
    result = result;
    error = error;
  })

unfoldable pub proof_to_dict : ComputeProof → Fields
proof_to_dict p = field "proof_id" (text p.proof_id) (
    field "job_id" (text p.job_id) (
      field "job_type" (text (type_name p.job_type)) (
        field "worker_address" (text p.worker_address) (
          field "client_address" (text p.client_address) (
            field "model_id" (text p.model_id) (
              field "compute_seconds" (seconds p.compute_seconds) (
                field "gpu_name" (text p.gpu_name) (
                  field "vram_used_gb" (int p.vram_used_gb) (
                    field "bytes_processed" (int p.bytes_processed) (
                      field "input_hash" (text p.input_hash) (
                        field "output_hash" (text p.output_hash) (
                          field "timestamp" (seconds p.timestamp) (
                            field "worker_signature" (text p.worker_signature) (
                              field "worker_public_key" (text p.worker_public_key)
                                (field "price_bc" (coins p.price_bc) (end))))))))))))))))

unfoldable pub proof_from_dict : Fields → Decoded ComputeProof
proof_from_dict d = do
  proof_id ← required "proof_id" d >>= as_text
  job_id ← required "job_id" d >>= as_text
  job_type ← required "job_type" d >>= as_text >>= type_of
  worker_address ← required "worker_address" d >>= as_text
  client_address ← required "client_address" d >>= as_text
  model_id ← required "model_id" d >>= as_text
  compute_seconds ← required "compute_seconds" d >>= as_seconds
  gpu_name ← required "gpu_name" d >>= as_text
  vram_used_gb ← required "vram_used_gb" d >>= as_int
  bytes_processed ← required "bytes_processed" d >>= as_int
  input_hash ← required "input_hash" d >>= as_text
  output_hash ← required "output_hash" d >>= as_text
  timestamp ← required "timestamp" d >>= as_seconds
  worker_signature ← as_text (find_or "worker_signature" (text "") d)
  worker_public_key ← as_text (find_or "worker_public_key" (text "") d)
  price_bc ← as_coins (find_or "price_bc" (coins (pos 0)) d)
  read (record {
    proof_id = proof_id;
    job_id = job_id;
    job_type = job_type;
    worker_address = worker_address;
    client_address = client_address;
    model_id = model_id;
    compute_seconds = compute_seconds;
    gpu_name = gpu_name;
    vram_used_gb = vram_used_gb;
    bytes_processed = bytes_processed;
    input_hash = input_hash;
    output_hash = output_hash;
    timestamp = timestamp;
    worker_signature = worker_signature;
    worker_public_key = worker_public_key;
    price_bc = price_bc;
  })

pub gpu_from_dict-to_dict : (g : GpuSpec) → gpu_from_dict (gpu_to_dict g) ≡ read g
unfolding gpu_from_dict gpu_to_dict
gpu_from_dict-to_dict g = rw compute_of-name refl

pub job_from_dict-to_dict : (j : ComputeJob) → job_from_dict (job_to_dict j) ≡ read j
unfolding job_from_dict job_to_dict
job_from_dict-to_dict j =
    rw
      (
        type_of-name,
        status_of-name,
        as_text?-text_or_null j.worker_address,
        as_seconds?-seconds_or_null j.assigned_at,
        as_seconds?-seconds_or_null j.completed_at,
        as_object?-object_or_null,
        as_text?-text_or_null j.error,
      )
      refl

pub proof_from_dict-to_dict : (p : ComputeProof) → proof_from_dict (proof_to_dict p) ≡ read p
unfolding proof_from_dict proof_to_dict
proof_from_dict-to_dict p = rw type_of-name refl

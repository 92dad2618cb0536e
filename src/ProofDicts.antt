-- ===== src/ProofDicts.antt =====
-- `to_dict` and `from_dict` of the compute and storage proofs: `from_dict` passes on the keys that
-- are there, so a missing one takes the default of its field, or is an exception where it has none.
pub mod Codec
use border.Prelude.{Option, none, some}
use border.Prelude.Int.{pos}
use border.Runtime.{int, coins, seconds, text, Fields, end, field, find_or}
use border.Decoding.{Decoded, read, required, as_int, as_coins, as_seconds, as_text, ◌>>=◌}
use border.Proofs.{ComputeProof, StorageProof}

unfoldable pub compute_to_dict : ComputeProof → Fields
compute_to_dict p = field "proof_id" (text p.proof_id) (
    field "job_id" (text p.job_id) (
      field "worker_address" (text p.worker_address) (
        field "client_address" (text p.client_address) (
          field "compute_seconds" (seconds p.compute_seconds) (
            field "bytes_processed" (int p.bytes_processed) (
              field "input_hash" (text p.input_hash) (
                field "output_hash" (text p.output_hash) (
                  field "timestamp" (seconds p.timestamp)
                    (field "price_bc" (coins p.price_bc) end)))))))))

unfoldable pub compute_from_dict : Fields → Decoded ComputeProof
compute_from_dict d = do
  proof_id ← required "proof_id" d >>= as_text
  job_id ← required "job_id" d >>= as_text
  worker_address ← required "worker_address" d >>= as_text
  client_address ← required "client_address" d >>= as_text
  compute_seconds ← required "compute_seconds" d >>= as_seconds
  bytes_processed ← required "bytes_processed" d >>= as_int
  input_hash ← required "input_hash" d >>= as_text
  output_hash ← required "output_hash" d >>= as_text
  timestamp ← required "timestamp" d >>= as_seconds
  price_bc ← as_coins (find_or "price_bc" (coins (pos 0)) d)
  read (record {
    proof_id = proof_id;
    job_id = job_id;
    worker_address = worker_address;
    client_address = client_address;
    compute_seconds = compute_seconds;
    bytes_processed = bytes_processed;
    input_hash = input_hash;
    output_hash = output_hash;
    timestamp = timestamp;
    price_bc = price_bc;
  })

unfoldable pub storage_to_dict : StorageProof → Fields
storage_to_dict p = field "proof_id" (text p.proof_id) (
    field "proof_type" (text p.proof_type) (
      field "node_address" (text p.node_address) (
        field "owner_address" (text p.owner_address) (
          field "chunk_id" (text p.chunk_id) (
            field "file_id" (text p.file_id) (
              field "bytes_stored" (int p.bytes_stored) (
                field "duration_seconds" (seconds p.duration_seconds) (
                  field "timestamp" (seconds p.timestamp) (
                    field "reward_bc" (coins p.reward_bc) (
                      field "node_signature" (text p.node_signature)
                        (field "node_public_key" (text p.node_public_key) end)))))))))))

unfoldable pub storage_from_dict : Fields → Decoded StorageProof
storage_from_dict d = do
  proof_id ← required "proof_id" d >>= as_text
  proof_type ← required "proof_type" d >>= as_text
  node_address ← required "node_address" d >>= as_text
  owner_address ← required "owner_address" d >>= as_text
  chunk_id ← required "chunk_id" d >>= as_text
  file_id ← required "file_id" d >>= as_text
  bytes_stored ← required "bytes_stored" d >>= as_int
  duration_seconds ← required "duration_seconds" d >>= as_seconds
  timestamp ← required "timestamp" d >>= as_seconds
  reward_bc ← as_coins (find_or "reward_bc" (coins (pos 0)) d)
  node_signature ← as_text (find_or "node_signature" (text "") d)
  node_public_key ← as_text (find_or "node_public_key" (text "") d)
  read (record {
    proof_id = proof_id;
    proof_type = proof_type;
    node_address = node_address;
    owner_address = owner_address;
    chunk_id = chunk_id;
    file_id = file_id;
    bytes_stored = bytes_stored;
    duration_seconds = duration_seconds;
    timestamp = timestamp;
    reward_bc = reward_bc;
    node_signature = node_signature;
    node_public_key = node_public_key;
  })

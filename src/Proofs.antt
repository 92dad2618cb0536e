-- ===== src/Proofs.antt =====
-- The work records of border/blockchain/block.py: bandwidth, compute and storage proofs, their
-- hashes, their signature checks and what each is worth.
use Prim.Native.String.{◌++◌}
use border.Prelude.{ℕ, ◌+◌, ◌*◌, ◌^◌, String, Bool, false, ◌||◌, Option, ltb, if◌then◌else◌}
use border.Prelude.Int.{ℤ, pos, pos_part}
use border.Prelude.Round.{round_half_even}
use border.Runtime.{
  Runtime, int, seconds, text, null, object, Fields, end, field, find_or, text_or_null,
}
use border.Decoding.{Decoded, read, required, as_int, as_seconds, as_text, as_text?, ◌>>=◌}
use border.Wallet.{verify, key_matches_address}
use border.Transaction.{is_empty}

pub record BandwidthProof : Type 0 where
  pub receipt_id : String
  pub relay_address : String
  pub client_id : String
  pub bytes_forwarded : ℕ
  pub timestamp : ℕ
  pub session_id : String
  pub relay_signature : String
  pub relay_public_key : String
  pub client_signature : Option String

pub record ComputeProof : Type 0 where
  pub proof_id : String
  pub job_id : String
  pub worker_address : String
  pub client_address : String
  -- in microseconds
  pub compute_seconds : ℕ
  pub bytes_processed : ℕ
  pub input_hash : String
  pub output_hash : String
  pub timestamp : ℕ
  pub price_bc : ℤ

pub record StorageProof : Type 0 where
  pub proof_id : String
  pub proof_type : String
  pub node_address : String
  pub owner_address : String
  pub chunk_id : String
  pub file_id : String
  pub bytes_stored : ℕ
  pub duration_seconds : ℕ
  pub timestamp : ℕ
  pub reward_bc : ℤ
  pub node_signature : String
  pub node_public_key : String

-- One gigabyte, 1024 ** 3.
abbrev pub gigabyte : ℕ
gigabyte = 1024 ^ 3

-- `border_coin_value`, as the numerator over `gigabyte`: BC_PER_GB is one coin.
unfoldable pub border_coin_value : BandwidthProof → ℕ
border_coin_value p = p.bytes_forwarded * 100_000_000

-- `max(hours * 2.0 + gb * 0.1, price_bc)` over the denominator 18 * gigabyte, rounded: an hour is
-- 3_600_000_000 microseconds, so one microsecond earns 1/18 of a unit.
unfoldable pub compute_reward_bc : ComputeProof → ℤ
unfolding round_half_even
compute_reward_bc p =
    let den = 18 * gigabyte in
    let earned = p.compute_seconds * gigabyte + p.bytes_processed * 10_000_000 * 18 in
    if ltb earned (pos_part p.price_bc * den) then p.price_bc else pos (round_half_even earned den)

module _ (rt : Runtime) where
  sha256_text : String → String
  sha256_text s = rt.hex (rt.sha256 (rt.encode s))

  unfoldable pub hash_bandwidth : BandwidthProof → String
  unfolding sha256_text
  hash_bandwidth p = sha256_text (
      p.relay_address
      ++ ":"
      ++ p.client_id
      ++ ":"
      ++ rt.show_int p.bytes_forwarded
      ++ ":"
      ++ rt.show_seconds p.timestamp)

  unfoldable pub hash_compute : ComputeProof → String
  unfolding sha256_text
  hash_compute p =
      sha256_text
        (p.proof_id ++ ":" ++ p.worker_address ++ ":" ++ p.input_hash ++ ":" ++ p.output_hash)

  unfoldable pub hash_storage : StorageProof → String
  unfolding sha256_text
  hash_storage p = sha256_text (
      rt.dumps (
        object (
          field "proof_id" (text p.proof_id) (
            field "node_address" (text p.node_address) (
              field "chunk_id" (text p.chunk_id) (
                field "bytes_stored" (int p.bytes_stored) (
                  field "duration_seconds" (seconds p.duration_seconds)
                    (field "timestamp" (seconds p.timestamp) end))))))))

  -- The body that both `verify_signature` methods share.
  signed_by : (signature public_key address digest : String) → Bool
  unfolding key_matches_address verify
  signed_by signature public_key address digest =
      if is_empty signature || is_empty public_key
      then false
      else (if key_matches_address rt public_key address
          then verify rt public_key (rt.encode digest) signature
          else false)

  unfoldable pub verify_bandwidth : BandwidthProof → Bool
  unfolding signed_by
  verify_bandwidth p =
      signed_by p.relay_signature p.relay_public_key p.relay_address (hash_bandwidth p)

  unfoldable pub verify_storage : StorageProof → Bool
  unfolding signed_by
  verify_storage p = signed_by p.node_signature p.node_public_key p.node_address (hash_storage p)

unfoldable pub bandwidth_to_dict : BandwidthProof → Fields
bandwidth_to_dict p = field "receipt_id" (text p.receipt_id) (
    field "relay_address" (text p.relay_address) (
      field "client_id" (text p.client_id) (
        field "bytes_forwarded" (int p.bytes_forwarded) (
          field "timestamp" (seconds p.timestamp) (
            field "session_id" (text p.session_id) (
              field "relay_signature" (text p.relay_signature) (
                field "relay_public_key" (text p.relay_public_key)
                  (field "client_signature" (text_or_null p.client_signature) end))))))))

unfoldable pub bandwidth_from_dict : Fields → Decoded BandwidthProof
bandwidth_from_dict d = do
  receipt_id ← required "receipt_id" d >>= as_text
  relay_address ← required "relay_address" d >>= as_text
  client_id ← required "client_id" d >>= as_text
  bytes_forwarded ← required "bytes_forwarded" d >>= as_int
  timestamp ← required "timestamp" d >>= as_seconds
  session_id ← required "session_id" d >>= as_text
  relay_signature ← as_text (find_or "relay_signature" (text "") d)
  relay_public_key ← as_text (find_or "relay_public_key" (text "") d)
  client_signature ← as_text? (find_or "client_signature" null d)
  read (record {
    receipt_id = receipt_id;
    relay_address = relay_address;
    client_id = client_id;
    bytes_forwarded = bytes_forwarded;
    timestamp = timestamp;
    session_id = session_id;
    relay_signature = relay_signature;
    relay_public_key = relay_public_key;
    client_signature = client_signature;
  })

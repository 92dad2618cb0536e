-- ===== src/Storage/Proof.antt =====
-- border/storage/proof.py: challenges to storage nodes and the proofs that they earn by, and the
-- challenge that a client of border/storage/client.py sends.
use border.Prelude.{
  ℕ, ◌+◌, ◌*◌, ◌≡◌, refl, String, Bool, true, false, ◌&&◌, Option, none, some, List, ◌++◌, length,
  ltb, str_eq, eq_iff, arith, if◌then◌else◌,
}
use border.Prelude.Int.{ℤ, pos}
use border.Prelude.Round.{round_half_even}
use border.Runtime.{Runtime, ◌>>=◌}
use border.Proofs.{gigabyte}
use border.Storage.{digest}
use border.Storage.Node.{StorageNode, retrieve_chunk, respond_to_challenge}

pub record StorageChallenge : Type 0 where
  pub challenge_id : String
  pub chunk_id : String
  pub node_address : String
  pub nonce : String
  pub issued_at : ℕ
  pub expires_at : ℕ

-- `TIMEOUT`
abbrev pub timeout : ℕ
timeout = 30_000_000

-- `issue`, with the random id and nonce
unfoldable pub issue : String → String → String → String → ℕ → StorageChallenge
issue challenge_id nonce chunk_id node_address now = record {
  challenge_id = challenge_id;
  chunk_id = chunk_id;
  node_address = node_address;
  nonce = nonce;
  issued_at = now;
  expires_at = now + timeout;
}

unfoldable pub challenge_expired : ℕ → StorageChallenge → Bool
challenge_expired now c = ltb c.expires_at now

pub data ProofType : Type 0 where
  challenge duration other_type : ProofType

-- The signature and the public key are added by the node that sends the proof.
pub record StorageProof : Type 0 where
  pub proof_id : String
  pub proof_type : ProofType
  pub node_address : String
  pub owner_address : String
  pub chunk_id : String
  pub file_id : String
  pub bytes_stored : ℕ
  pub duration_seconds : ℕ
  pub challenge_id : Option String
  pub challenge_nonce : Option String
  pub response_hash : Option String
  pub expected_hash : Option String
  pub timestamp : ℕ

-- What both constructors fill in.
unfoldable pub from_challenge :
    String → StorageChallenge → String → String → String → ℕ → String → String → ℕ → StorageProof
from_challenge proof_id c node_address owner_address file_id bytes_stored response expected now =
    record {
      proof_id = proof_id;
      proof_type = challenge;
      node_address = node_address;
      owner_address = owner_address;
      chunk_id = c.chunk_id;
      file_id = file_id;
      bytes_stored = bytes_stored;
      duration_seconds = 0;
      challenge_id = some c.challenge_id;
      challenge_nonce = some c.nonce;
      response_hash = some response;
      expected_hash = some expected;
      timestamp = now;
    }

unfoldable pub from_duration : String → String → String → String → String → ℕ → ℕ → ℕ → StorageProof
from_duration proof_id node_address owner_address chunk_id file_id bytes_stored seconds now =
    record {
      proof_id = proof_id;
      proof_type = duration;
      node_address = node_address;
      owner_address = owner_address;
      chunk_id = chunk_id;
      file_id = file_id;
      bytes_stored = bytes_stored;
      duration_seconds = seconds;
      challenge_id = none;
      challenge_nonce = none;
      response_hash = none;
      expected_hash = none;
      timestamp = now;
    }

-- Neither is None, and they are equal.
abbrev pub both_equal : Option String → Option String → Bool
both_equal none e = false
both_equal (some r) none = false
both_equal (some r) (some e) = str_eq r e

unfoldable pub is_valid : StorageProof → Bool
is_valid p = elim p.proof_type [
  | challenge ↦ both_equal p.response_hash p.expected_hash
  | duration ↦ ltb 0 p.duration_seconds && ltb 0 p.bytes_stored
  | other_type ↦ false
]

-- 0.0001 BC for a challenge, and 0.01 BC for a gigabyte and a day: a byte and a microsecond earn one
-- unit over 86_400 gigabytes.
unfoldable pub reward_bc : StorageProof → ℤ
unfolding round_half_even
reward_bc p = elim p.proof_type [
  | challenge ↦ pos 10_000
  | duration ↦ pos (round_half_even (p.bytes_stored * p.duration_seconds) (gigabyte * 86_400))
  | other_type ↦ pos 0
]

module _ (rt : Runtime) where
  unfoldable pub expected_response : StorageChallenge → List ℕ → String
  expected_response c ciphertext = digest rt (ciphertext ++ rt.encode c.nonce)

  -- `challenge_node` of the client, for a node that answers: the response is its answer to the
  -- challenge, and the ciphertext that it is compared with is fetched from the same node.
  unfoldable pub judge :
      String
      → StorageChallenge
      → String
      → String
      → String
      → ℕ
      → String
      → Option (List ℕ)
      → Option StorageProof
  judge proof_id c endpoint owner file_id now response none = none
  judge proof_id c endpoint owner file_id now response (some ciphertext) =
      if str_eq response (expected_response c ciphertext)
      then some (
          from_challenge proof_id c endpoint owner file_id (length ciphertext) response
            (expected_response c ciphertext) now)
      else none

  unfoldable pub challenge_node :
      String → StorageChallenge → String → String → String → ℕ → StorageNode → Option StorageProof
  challenge_node proof_id c endpoint owner file_id now n =
      respond_to_challenge rt c.chunk_id c.nonce n >>= (λ response.
        judge proof_id c endpoint owner file_id now response (retrieve_chunk c.chunk_id n))

  -- Whatever bytes a node holds under the id of a chunk, also when they are not the chunk that was
  -- sent to it, the client's challenge passes and gives a valid proof.
  pub challenge_node_trusts_node :
      (proof_id endpoint owner file_id : String) (c : StorageChallenge) (now : ℕ) (n : StorageNode)
      (bytes : List ℕ)
      → retrieve_chunk c.chunk_id n ≡ some bytes
      → (p : StorageProof) × (challenge_node proof_id c endpoint owner file_id now n ≡ some p)
        × (is_valid p ≡ true)
        × (p.bytes_stored ≡ length bytes)
  unfolding challenge_node judge respond_to_challenge expected_response is_valid from_challenge
  challenge_node_trusts_node proof_id endpoint owner file_id c now n bytes h =
      let hash = expected_response c bytes in
      let same : str_eq hash hash ≡ true = ground (arith, eq_iff hash hash) in
      (
        from_challenge proof_id c endpoint owner file_id (length bytes) hash hash now,
        rw (h, same) refl,
        same,
        refl,
      )

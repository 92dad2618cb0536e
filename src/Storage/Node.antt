-- ===== src/Storage/Node.antt =====
-- `BorderStorageNode` of border/storage/node.py: the chunks that a node keeps.
pub mod Laws
use border.Prelude.{
  ℕ, ◌+◌, ◌-◌, String, Bool, true, false, Option, none, some, List, [], ◌∷◌, ◌++◌, length,
  if◌then◌else◌,
}
use border.Prelude.Dict.{Dict, get, put, remove}
use border.Runtime.{Runtime, ◌>>=◌}
use border.Storage.{digest}

-- An entry of `_chunk_metadata`.
pub record Meta : Type 0 where
  pub file_id : String
  pub owner_address : String
  pub stored_at : ℕ
  pub size : ℕ

-- A file is kept for each id of `_chunks_stored`, and nothing else touches the files, so that the set
-- and the files are one dict here.
pub record StorageNode : Type 0 where
  pub chunks : Dict (List ℕ)
  pub metadata : Dict Meta
  pub bytes_stored : ℕ

unfoldable pub store_chunk : String → List ℕ → String → String → ℕ → StorageNode → StorageNode
store_chunk chunk_id ciphertext file_id owner_address now n = elim (get chunk_id n.chunks) [
  | some old ↦ n
  | none ↦ record {
    chunks = put chunk_id ciphertext n.chunks;
    metadata =
        put chunk_id
          (record {
            file_id = file_id;
            owner_address = owner_address;
            stored_at = now;
            size = length ciphertext;
          })
          n.metadata;
    bytes_stored = n.bytes_stored + length ciphertext;
  }
]

unfoldable pub retrieve_chunk : String → StorageNode → Option (List ℕ)
retrieve_chunk chunk_id n = get chunk_id n.chunks

-- `max(0, self._bytes_stored - size)` is the subtraction of ℕ.
unfoldable pub delete_chunk : String → StorageNode → Bool × StorageNode
delete_chunk chunk_id n = elim (get chunk_id n.chunks) [
  | none ↦ (false, n)
  | some old ↦ (
    true,
    record {
      chunks = remove chunk_id n.chunks;
      metadata = remove chunk_id n.metadata;
      bytes_stored = n.bytes_stored - length old;
    },
  )
]

-- `sha256(ciphertext + nonce).hexdigest()` of what the node holds
unfoldable pub respond_to_challenge : Runtime → String → String → StorageNode → Option String
respond_to_challenge rt chunk_id nonce n =
    retrieve_chunk chunk_id n >>= (λ ciphertext. some (digest rt (ciphertext ++ rt.encode nonce)))

abbrev pub empty_node : StorageNode
empty_node = record { chunks = []; metadata = []; bytes_stored = 0 }

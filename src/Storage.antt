-- ===== src/Storage.antt =====
-- border/storage/chunk.py: files cut into encrypted chunks, and put together again.
pub mod Reassembly
pub mod Node
pub mod Client
pub mod Proof
mod Tests
use border.Prelude.{
  ℕ, zero, suc, ◌+◌, ◌-◌, String, Bool, true, false, Option, none, some, List, [], ◌∷◌, ◌++◌, map,
  length, take, drop, ltb, leb, str_eq, if◌then◌else◌,
}
use border.Prelude.Sort.{sorted}
use border.Prelude.Dict.{Dict}
use border.Runtime.{Runtime}

abbrev pub nonce_size : ℕ
nonce_size = 12

-- `ChaCha20Poly1305(key)`, where `none` is an InvalidTag, and `bytes.fromhex`.
pub record Cipher : Type 0 where
  pub encrypt : (key nonce plain aad : List ℕ) → List ℕ
  pub decrypt : (key nonce cipher aad : List ℕ) → Option (List ℕ)
  pub from_hex : String → Option (List ℕ)

pub record Chunk : Type 0 where
  pub chunk_id : String
  pub file_id : String
  pub index : ℕ
  pub plaintext : List ℕ
  pub ciphertext : List ℕ
  pub size : ℕ
  pub key : List ℕ

-- An entry of `chunk_entries`.
pub record Entry : Type 0 where
  pub chunk_id : String
  pub index : ℕ
  pub size : ℕ
  pub key : String

pub record Manifest : Type 0 where
  pub file_id : String
  pub filename : String
  pub total_size : ℕ
  pub chunk_count : ℕ
  pub chunk_size : ℕ
  pub chunk_entries : List Entry
  pub node_map : Dict (List String)
  pub owner_address : String
  pub content_hash : String

abbrev pub sum_sizes : List Chunk → ℕ
sum_sizes [] = 0
sum_sizes (c ∷ cs) = c.size + sum_sizes cs

abbrev pub join : List (List ℕ) → List ℕ
join [] = []
join (x ∷ xs) = x ++ join xs

-- `range(i, stop, step)`, for a step that is not 0, with fuel for its length
unfoldable pub range : (fuel i stop step : ℕ) → List ℕ
range zero i stop step = []
range (suc fuel) i stop step =
    let rest = range fuel (i + step) stop step in if ltb i stop then i ∷ rest else []

-- `data[i:i + n]`
abbrev pub piece : List ℕ → ℕ → ℕ → List ℕ
piece bytes n i = take n (drop i bytes)

module _ (rt : Runtime) where
  abbrev pub digest : List ℕ → String
  digest bytes = rt.hex (rt.sha256 bytes)

  -- `reassemble`
  unfoldable pub reassemble : List Chunk → List ℕ
  reassemble cs = join (map (λ c. c.plaintext) (sorted (λ a b. leb a.index b.index) cs))

  module _ (ci : Cipher) where
    -- `key` and `nonce` are the random bytes.
    unfoldable pub from_plaintext : String → ℕ → List ℕ → (key nonce : List ℕ) → Chunk
    from_plaintext file_id index bytes key nonce = record {
      chunk_id = digest bytes;
      file_id = file_id;
      index = index;
      plaintext = bytes;
      ciphertext = nonce ++ ci.encrypt key nonce bytes (rt.encode (digest bytes));
      size = length bytes;
      key = key;
    }

    -- `decrypt`, for a key and an id
    unfoldable pub decrypt_with : (key : List ℕ) (chunk_id : String) → List ℕ → Option (List ℕ)
    decrypt_with key chunk_id ciphertext =
        ci.decrypt key (take nonce_size ciphertext) (drop nonce_size ciphertext)
          (rt.encode chunk_id)

    unfoldable pub verify_chunk : Chunk → List ℕ → Bool
    unfolding decrypt_with
    verify_chunk c ciphertext = elim (decrypt_with c.key c.chunk_id ciphertext) [
      | none ↦ false
      | some plain ↦ str_eq (digest plain) c.chunk_id
    ]

    -- The loop of `split`; `random n` are the key and the nonce of chunk `n`.
    unfoldable pub make_chunks :
        (ℕ → List ℕ × List ℕ) → String → ℕ → List ℕ → ℕ → List ℕ → List Chunk
    make_chunks random file_id n bytes count [] = []
    make_chunks random file_id n bytes count (i ∷ is) =
        from_plaintext file_id count (piece bytes n i) (random count).0 (random count).1
        ∷ make_chunks random file_id n bytes (suc count) is

    -- `split`: a chunk size of 0 is a ValueError of `range`.
    unfoldable pub split : (ℕ → List ℕ × List ℕ) → ℕ → List ℕ → String → Option (List Chunk)
    unfolding range
    split random zero bytes file_id = none
    split random (suc k) bytes file_id =
        some (
          make_chunks random file_id (suc k) bytes 0
            (range (length bytes) 0 (length bytes) (suc k)))

  unfoldable pub to_manifest_entry : Chunk → Entry
  to_manifest_entry c = record {
    chunk_id = c.chunk_id;
    index = c.index;
    size = c.size;
    key = rt.hex c.key;
  }

  unfoldable pub build_manifest :
      ℕ → String → String → List Chunk → String → String → Dict (List String) → Manifest
  unfolding to_manifest_entry
  build_manifest chunk_size file_id filename chunks owner_address content_hash node_map = record {
    file_id = file_id;
    filename = filename;
    total_size = sum_sizes chunks;
    chunk_count = length chunks;
    chunk_size = chunk_size;
    chunk_entries = map to_manifest_entry chunks;
    node_map = node_map;
    owner_address = owner_address;
    content_hash = content_hash;
  }

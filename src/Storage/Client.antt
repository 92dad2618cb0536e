-- ===== src/Storage/Client.antt =====
-- `StorageClient` of border/storage/client.py: a file is sent out in chunks and fetched again. The
-- network is the dict of the nodes by their endpoints; a request to any other endpoint fails.
pub mod Places
pub mod Fetch
pub mod Transfer
use border.Prelude.{
  ℕ, String, Bool, true, false, Option, none, some, List, [], ◌∷◌, ◌++◌, map, length, leb, str_eq,
  if◌then◌else◌,
}
use border.Prelude.Dict.{Dict, get, get_or, put}
use border.Prelude.Sort.{sorted}
use border.Runtime.{Runtime, ◌>>=◌}
use border.Storage.{
  Cipher, Chunk, Entry, Manifest, join, digest, decrypt_with, split, build_manifest,
}
use border.Storage.Node.{StorageNode, store_chunk, retrieve_chunk}

abbrev pub Network : Type 0
Network = Dict StorageNode

-- What a client sends with each chunk.
pub record Sender : Type 0 where
  pub owner_address : String
  pub replication : ℕ
  pub now : ℕ

-- The handler of /storage/store: an empty body is refused.
unfoldable pub store_request : Sender → Chunk → List ℕ → StorageNode → Option StorageNode
store_request w c [] s = none
store_request w c (b ∷ bs) s =
    some (store_chunk c.chunk_id (b ∷ bs) c.file_id w.owner_address w.now s)

-- A POST to an endpoint; `none` where it fails.
unfoldable pub post_chunk : Sender → Chunk → String → Network → Option Network
post_chunk w c n net =
    get n net >>= (λ s. store_request w c c.ciphertext s >>= (λ s'. some (put n s' net)))

unfoldable pub if_posted :
    (List String → Network → List String × Network)
    → String
    → List String
    → Network
    → Option Network
    → List String × Network
if_posted next n placed net none = next placed net
if_posted next n placed net (some net') = next (placed ++ n ∷ []) net'

-- `_distribute_chunk`, from the endpoints that are left and those that have the chunk
unfoldable pub distribute_chunk :
    Sender → Chunk → List String → List String → Network → List String × Network
distribute_chunk w c [] placed net = (placed, net)
distribute_chunk w c (n ∷ ns) placed net =
    if leb w.replication (length placed)
    then (placed, net)
    else if_posted (distribute_chunk w c ns) n placed net (post_chunk w c n net)

-- The loop of `upload_bytes`.
unfoldable pub place_all :
    Sender → List String → List Chunk → Dict (List String) → Network → Dict (List String) × Network
place_all w nodes [] node_map net = (node_map, net)
place_all w nodes (c ∷ cs) node_map net =
    let d = distribute_chunk w c nodes [] net in
    place_all w nodes cs (put c.chunk_id d.0 node_map) d.1

-- The first answer, else the second.
abbrev pub or_else : Option (List ℕ) → Option (List ℕ) → Option (List ℕ)
or_else none rest = rest
or_else (some bytes) rest = some bytes

-- `_fetch_chunk`: the first endpoint that has it
unfoldable pub fetch_chunk : String → List String → Network → Option (List ℕ)
fetch_chunk chunk_id [] net = none
fetch_chunk chunk_id (n ∷ ns) net =
    or_else (get n net >>= retrieve_chunk chunk_id) (fetch_chunk chunk_id ns net)

-- The exceptions of `download`.
pub data Failure : Type 0 where
  key_not_hex not_retrieved invalid_tag chunk_differs : String → Failure
  file_differs : Failure

pub data Result (A : Type 0) : Type 0 where
  failed : Failure → Result A
  done : A → Result A

module _ (rt : Runtime) (ci : Cipher) where
  -- `upload_bytes`; `random` gives the keys and nonces.
  unfoldable pub upload_bytes :
      Sender
      → (ℕ → List ℕ × List ℕ)
      → ℕ
      → String
      → String
      → List String
      → List ℕ
      → Network
      → Option (Manifest × Network)
  upload_bytes w random chunk_size file_id filename nodes bytes net = do
    chunks ← split rt ci random chunk_size bytes file_id
    let placed = place_all w nodes chunks [] net
    some (
      build_manifest rt chunk_size file_id filename chunks w.owner_address (digest rt bytes)
          placed.0,
      placed.1,
    )

  -- The steps for one entry, each on what the one before gave.
  unfoldable pub checked : Entry → Option (List ℕ) → Result (ℕ × List ℕ)
  checked e none = failed (invalid_tag e.chunk_id)
  checked e (some plain) =
      if str_eq (digest rt plain) e.chunk_id
      then done (e.index, plain)
      else failed (chunk_differs e.chunk_id)

  unfoldable pub opened : Entry → List ℕ → Option (List ℕ) → Result (ℕ × List ℕ)
  opened e key none = failed (not_retrieved e.chunk_id)
  opened e key (some bytes) = checked e (decrypt_with rt ci key e.chunk_id bytes)

  unfoldable pub fetched :
      Dict (List String) → Network → Entry → Option (List ℕ) → Result (ℕ × List ℕ)
  fetched node_map net e none = failed (key_not_hex e.chunk_id)
  fetched node_map net e (some key) =
      opened e key (fetch_chunk e.chunk_id (get_or e.chunk_id [] node_map) net)

  unfoldable pub download_entry : Dict (List String) → Network → Entry → Result (ℕ × List ℕ)
  download_entry node_map net e = fetched node_map net e (ci.from_hex e.key)

  unfoldable pub and_rest :
      Result (ℕ × List ℕ) → Result (List (ℕ × List ℕ)) → Result (List (ℕ × List ℕ))
  and_rest (failed reason) rest = failed reason
  and_rest (done x) (failed reason) = failed reason
  and_rest (done x) (done xs) = done (x ∷ xs)

  unfoldable pub collect : Dict (List String) → Network → List Entry → Result (List (ℕ × List ℕ))
  unfolding download_entry and_rest
  collect node_map net [] = done []
  collect node_map net (e ∷ es) = and_rest (download_entry node_map net e) (collect node_map net es)

  -- The check of the whole file; an empty hash is no hash.
  unfoldable pub whole_file : String → Result (List (ℕ × List ℕ)) → Result (List ℕ)
  whole_file content_hash (failed reason) = failed reason
  whole_file content_hash (done parts) =
      let bytes = join (map (λ p. p.1) (sorted (λ a b. leb a.0 b.0) parts)) in
      if str_eq content_hash ""
      then done bytes
      else (if str_eq (digest rt bytes) content_hash then done bytes else failed file_differs)

  unfoldable pub download : Manifest → Network → Result (List ℕ)
  unfolding collect whole_file
  download m net = whole_file m.content_hash (collect m.node_map net m.chunk_entries)

-- ===== src/Storage/Client/Transfer.antt =====
-- A file that was sent out is fetched again.
use mathlib.Core.Option.{some-injective}
use border.Prelude.{
  ℕ, zero, suc, ◌<◌, ◌≡◌, refl, sym, ap, ◌∙◌, String, Bool, true, some, List, [], ◌∷◌, ◌++◌, map,
  length, take, drop, take-length-append, drop-length-append, length-append, All, leb, arith,
  eq_iff, subst,
}
use border.Prelude.Dict.{Dict, get_or}
use border.Prelude.Sort.{sorted, sorted-same, IsSorted}
use border.Runtime.{Runtime}
use border.Storage.{
  Cipher, Chunk, Manifest, join, range, piece, digest, decrypt_with, from_plaintext, make_chunks,
  split, to_manifest_entry, build_manifest, nonce_size,
}
use border.Storage.Reassembly.{join-pieces, plaintexts, make_chunks-IsSorted, le_index}
use border.Storage.Client.{
  Network, Sender, place_all, fetch_chunk, done, checked, opened, fetched, download_entry, and_rest,
  collect, whole_file, upload_bytes, download,
}
use border.Storage.Client.Fetch.{AreDistinct, place_all-fetched}
use border.Storage.Client.Places.{IsUp, Only}

abbrev pair_of : Chunk → ℕ × List ℕ
pair_of c = (c.index, c.plaintext)

abbrev le_pair : ℕ × List ℕ → ℕ × List ℕ → Bool
le_pair a b = leb a.0 b.0

second-pairs : (cs : List Chunk) → map (λ p. p.1) (map pair_of cs) ≡ map (λ c. c.plaintext) cs
second-pairs [] = refl
second-pairs (c ∷ cs) = rw (second-pairs cs) refl

above-pairs :
    (x : Chunk) (cs : List Chunk)
    → All (λ c. le_index x c ≡ true) cs
    → All (λ p. le_pair (pair_of x) p ≡ true) (map pair_of cs)
above-pairs x [] h = tt
above-pairs x (c ∷ cs) h = (h.0, above-pairs x cs h.1)

pairs-IsSorted : (cs : List Chunk) → IsSorted le_index cs → IsSorted le_pair (map pair_of cs)
pairs-IsSorted [] h = tt
pairs-IsSorted (c ∷ cs) h = (above-pairs c cs h.0, pairs-IsSorted cs h.1)

-- What `from_plaintext` makes of its bytes.
record IsMade (rt : Runtime) (ci : Cipher) (c : Chunk) : Type 0 where
  nonce : List ℕ
  sized : length nonce ≡ nonce_size
  named : c.chunk_id ≡ digest rt c.plaintext
  readable : ci.from_hex (rt.hex c.key) ≡ some c.key
  sealed : c.ciphertext ≡ nonce ++ ci.encrypt c.key nonce c.plaintext (rt.encode c.chunk_id)

module _ (rt : Runtime) (ci : Cipher)
    (decrypts : (key nonce plain aad : List ℕ)
      → ci.decrypt key nonce (ci.encrypt key nonce plain aad) aad ≡ some plain) where
  decrypt_with-IsMade :
      (c : Chunk)
      → IsMade rt ci c
      → decrypt_with rt ci c.key c.chunk_id c.ciphertext ≡ some c.plaintext
  unfolding decrypt_with
  decrypt_with-IsMade c h =
      let sealed_bytes = ci.encrypt c.key h.nonce c.plaintext (rt.encode c.chunk_id) in
      let bytes = h.nonce ++ sealed_bytes in
      let front : take nonce_size bytes ≡ h.nonce =
        ap (λ k. take k bytes) (sym h.sized) ∙ take-length-append h.nonce sealed_bytes in
      let back : drop nonce_size bytes ≡ sealed_bytes =
        ap (λ k. drop k bytes) (sym h.sized) ∙ drop-length-append h.nonce sealed_bytes in
      rw (h.sealed, decrypt_with, front, back)
        (decrypts c.key h.nonce c.plaintext (rt.encode c.chunk_id))

  download_entry-done :
      (node_map : Dict (List String)) (net : Network) (c : Chunk)
      → IsMade rt ci c
      → fetch_chunk c.chunk_id (get_or c.chunk_id [] node_map) net ≡ some c.ciphertext
      → download_entry rt ci node_map net (to_manifest_entry rt c) ≡ done (c.index, c.plaintext)
  unfolding download_entry fetched opened checked to_manifest_entry
  download_entry-done node_map net c h found =
      rw (h.readable, found, decrypt_with-IsMade c h)
        (ground (arith, h.named, eq_iff (digest rt c.plaintext) c.chunk_id))

  collect-done :
      (node_map : Dict (List String)) (net : Network) (cs : List Chunk)
      → All (IsMade rt ci) cs
      → All (λ c. fetch_chunk c.chunk_id (get_or c.chunk_id [] node_map) net ≡ some c.ciphertext) cs
      → collect rt ci node_map net (map (to_manifest_entry rt) cs)
        ≡ done (map (λ c. (c.index, c.plaintext)) cs)
  unfolding collect and_rest
  collect-done node_map net [] h found = refl
  collect-done node_map net (c ∷ cs) h found =
      rw (download_entry-done node_map net c h.0 found.0, collect-done node_map net cs h.1 found.1)
        refl

  module _ (random : ℕ → List ℕ × List ℕ) (sized : (i : ℕ) → length (random i).1 ≡ nonce_size)
      (reads_hex : (i : ℕ) → ci.from_hex (rt.hex (random i).0) ≡ some (random i).0)
      (file_id : String) where
    abbrev made_of : ℕ → List ℕ → List Chunk
    made_of k bytes =
        make_chunks rt ci random file_id (suc k) bytes 0
          (range (length bytes) 0 (length bytes) (suc k))

    full :
        (k count : ℕ) (bytes is : List ℕ)
        → All (λ c. 0 < length c.ciphertext) (make_chunks rt ci random file_id k bytes count is)
    unfolding make_chunks from_plaintext
    full k count bytes [] = tt
    full k count bytes (i ∷ is) = (
      omega (
        arith,
        sized count,
        length-append (random count).1 (
            ci.encrypt (random count).0 (random count).1 (piece bytes k i)
              (rt.encode (digest rt (piece bytes k i)))),
      ),
      full k (suc count) bytes is,
    )

    make_chunks-IsMade :
        (k count : ℕ) (bytes is : List ℕ)
        → All (IsMade rt ci) (make_chunks rt ci random file_id k bytes count is)
    unfolding make_chunks from_plaintext
    make_chunks-IsMade k count bytes [] = tt
    make_chunks-IsMade k count bytes (i ∷ is) = (
      record {
        nonce = (random count).1;
        sized = sized count;
        named = refl;
        readable = reads_hex count;
        sealed = refl;
      },
      make_chunks-IsMade k (suc count) bytes is,
    )

    joined :
        (k : ℕ) (bytes : List ℕ)
        → join (map (λ p. p.1) (sorted le_pair (map pair_of (made_of k bytes)))) ≡ bytes
    joined k bytes =
        let offsets = range (length bytes) 0 (length bytes) (suc k) in
        rw
          (
            sorted-same le_pair (map pair_of (made_of k bytes)) (
                pairs-IsSorted (made_of k bytes)
                  (make_chunks-IsSorted rt ci random file_id (suc k) 0 bytes offsets)),
            second-pairs (made_of k bytes),
            plaintexts rt ci random file_id (suc k) 0 bytes offsets,
          )
          (join-pieces (length bytes) 0 k bytes (omega arith))

    -- A file that was sent out is fetched again whole, if no two of its chunks have the same id, if
    -- nothing else is held under their ids, if the first endpoint answers and one copy at least is
    -- wanted, if the nonces have 12 bytes, the keys are read back from their texts, and the cipher gives
    -- back what it encrypted.
    pub upload_then_download :
        (w : Sender) (k : ℕ) (filename n : String) (ns : List String) (bytes : List ℕ)
        (net : Network) (cs : List Chunk)
        → split rt ci random k bytes file_id ≡ some cs
        → 0 < w.replication
        → IsUp n net
        → AreDistinct cs
        → All (λ c. Only c net) cs
        → (m : Manifest) × (net' : Network) × (upload_bytes rt ci w random k file_id filename
              (n ∷ ns)
              bytes
              net
            ≡ some (m, net'))
          × (download rt ci m net' ≡ done bytes)
    unfolding upload_bytes download whole_file build_manifest split
    upload_then_download w zero filename n ns bytes net cs h copies up distinct only = absurd (cc h)
    upload_then_download w (suc k) filename n ns bytes net cs h copies up distinct only =
        let made = made_of k bytes in
        let offsets = range (length bytes) 0 (length bytes) (suc k) in
        let e : made ≡ cs = some-injective made cs h in
        let placed = place_all w (n ∷ ns) made [] net in
        let found =
          place_all-fetched w n ns copies made [] net up (full (suc k) 0 bytes offsets)
            (subst AreDistinct (sym e) distinct) (subst (All (λ c. Only c net)) (sym e) only) in
        let parts =
          collect-done placed.0 placed.1 made (make_chunks-IsMade (suc k) 0 bytes offsets) found in
        (
          _,
          _,
          refl,
          rw parts (ground (arith, joined k bytes, eq_iff (digest rt bytes) (digest rt bytes))),
        )

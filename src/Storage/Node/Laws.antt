-- ===== src/Storage/Node/Laws.antt =====
-- The account of the bytes that a node keeps, over any sequence of calls.
use border.Prelude.{ℕ, ◌+◌, ◌≡◌, refl, String, none, some, List, [], ◌∷◌, length, arith, eq_iff}
use border.Prelude.Dict.{Dict, get, put, remove, get-remove, AreOnce, AreOnce-put}
use border.Storage.Node.{StorageNode, store_chunk, delete_chunk, empty_node}

-- One call of an operation that changes the node.
pub data Step (n : StorageNode) : StorageNode → Type 0 where
  stored :
      (chunk_id : String) (ciphertext : List ℕ) (file_id owner_address : String) (now : ℕ)
      → Step n (store_chunk chunk_id ciphertext file_id owner_address now n)
  deleted : (chunk_id : String) → Step n (delete_chunk chunk_id n).1

pub data Reach : StorageNode → Type 0 where
  start : Reach empty_node
  next : {n n' : StorageNode} → Reach n → Step n n' → Reach n'

abbrev pub total : Dict (List ℕ) → ℕ
total [] = 0
total ((k, bytes) ∷ d) = length bytes + total d

pub record IsCounted (n : StorageNode) : Type 0 where
  pub once : AreOnce n.chunks
  pub counted : n.bytes_stored ≡ total n.chunks

total-put :
    (k : String) (v : List ℕ) (d : Dict (List ℕ))
    → get k d ≡ none
    → total (put k v d) ≡ total d + length v
unfolding get put
total-put k v [] h = omega arith
total-put k v ((j, w) ∷ d) h = ground (arith, total-put k v d)

remove_absent : (k : String) (d : Dict (List ℕ)) → get k d ≡ none → remove k d ≡ d
unfolding get remove
remove_absent k [] h = refl
remove_absent k ((j, w) ∷ d) h = ground (arith, remove_absent k d)

total-remove :
    (k : String) (v : List ℕ) (d : Dict (List ℕ))
    → AreOnce d
    → get k d ≡ some v
    → total (remove k d) + length v ≡ total d
unfolding get remove
total-remove k v [] a h = absurd (cc h)
total-remove k v ((j, w) ∷ d) a h =
    ground (arith, total-remove k v d a.1, eq_iff j k, remove_absent k d)

AreOnce-remove : (k : String) (d : Dict (List ℕ)) → AreOnce d → AreOnce (remove k d)
unfolding remove
AreOnce-remove k [] a = tt
AreOnce-remove k ((j, w) ∷ d) a = ground (arith, AreOnce-remove k d a.1, get-remove k j d)

store_chunk-IsCounted :
    (k : String) (bytes : List ℕ) (file owner : String) (now : ℕ) (n : StorageNode)
    → IsCounted n
    → IsCounted (store_chunk k bytes file owner now n)
unfolding store_chunk
store_chunk-IsCounted k bytes file owner now n h =
    ground (arith, AreOnce-put k bytes n.chunks, total-put k bytes n.chunks)

delete_chunk-IsCounted :
    (k : String) (n : StorageNode) → IsCounted n → IsCounted (delete_chunk k n).1
unfolding delete_chunk
delete_chunk-IsCounted k n h = grind (arith, AreOnce-remove k n.chunks, total-remove k, h)

-- After any sequence of stores and deletions, also of the same ids, each chunk stands once and the
-- bytes that the node reports are those of the chunks that it holds.
pub Reach-IsCounted : {n : StorageNode} → Reach n → IsCounted n
Reach-IsCounted start = record { once = tt; counted = refl }
Reach-IsCounted (next {n} r (stored k bytes file owner now)) =
    store_chunk-IsCounted k bytes file owner now n (Reach-IsCounted r)
Reach-IsCounted (next {n} r (deleted k)) = delete_chunk-IsCounted k n (Reach-IsCounted r)

-- ===== src/Storage/Tests.antt =====
-- The theorems on storage at a toy cipher and small files.
use mathlib.Core.List.{Permᴰ}
use border.Prelude.{ℕ, ◌≡◌, refl, true, some, List, [], ◌∷◌, length, arith}
use border.Prelude.Dict.{get, put}
use border.Storage.{Chunk, Cipher, Manifest, split, range, make_chunks, from_plaintext, reassemble}
use border.Storage.Reassembly.{split_then_reassemble}
use border.Storage.Node.{StorageNode, empty_node, store_chunk, delete_chunk, retrieve_chunk}
use border.Storage.Node.Laws.{Reach, Step, IsCounted, Reach-IsCounted}
use border.Storage.Client.{Network, Sender, Result, upload_bytes, download}
use border.Storage.Client.Places.{Only}
use border.Storage.Client.Transfer.{upload_then_download}
use border.Storage.Proof.{
  StorageChallenge, StorageProof, issue, challenge_node, is_valid, challenge_node_trusts_node,
}
use border.Samples.{toy}

abbrev no_cipher : Cipher
no_cipher = record {
  encrypt = λ key nonce plain aad. plain;
  decrypt = λ key nonce cipher aad. some cipher;
  from_hex = λ s. some (9 ∷ []);
}

abbrev random : ℕ → List ℕ × List ℕ
random i = (9 ∷ [], 0 ∷ 0 ∷ 0 ∷ 0 ∷ 0 ∷ 0 ∷ 0 ∷ 0 ∷ 0 ∷ 0 ∷ 0 ∷ 0 ∷ [])

abbrev chunk : ℕ → List ℕ → Chunk
chunk i bytes = from_plaintext toy no_cipher "f" i bytes (random i).0 (random i).1

abbrev file : List ℕ
file = 1 ∷ 2 ∷ 3 ∷ []

file-is_split :
    split toy no_cipher random 2 file "f" ≡ some (chunk 0 (1 ∷ 2 ∷ []) ∷ chunk 1 (3 ∷ []) ∷ [])
unfolding split range make_chunks
file-is_split = refl

split_then_reassemble_example : reassemble toy (chunk 1 (3 ∷ []) ∷ chunk 0 (1 ∷ 2 ∷ []) ∷ []) ≡ file
split_then_reassemble_example =
    split_then_reassemble toy no_cipher random 2 file "f"
      (chunk 0 (1 ∷ 2 ∷ []) ∷ chunk 1 (3 ∷ []) ∷ []) (chunk 1 (3 ∷ []) ∷ chunk 0 (1 ∷ 2 ∷ []) ∷ [])
      file-is_split (Permᴰ.swap refl refl)

abbrev kept : StorageNode
kept = store_chunk "a" file "f" "BC_h" 5 empty_node

Reach-IsCounted_example : IsCounted (delete_chunk "a" kept).1
Reach-IsCounted_example =
    Reach-IsCounted
      (Reach.next (Reach.next Reach.start (Step.stored "a" file "f" "BC_h" 5)) (Step.deleted "a"))

abbrev network : Network
network = ("n", empty_node) ∷ []

abbrev sender : Sender
sender = record { owner_address = "BC_h"; replication = 1; now = 5 }

whole-is_split : split toy no_cipher random 4 file "f" ≡ some (chunk 0 file ∷ [])
unfolding split range make_chunks
whole-is_split = refl

node-is_up : get "n" network ≡ some empty_node
unfolding get
node-is_up = refl

nothing-held : Only (chunk 0 file) network
unfolding get retrieve_chunk
nothing-held m = ground arith

upload_then_download_example :
    (m : Manifest) × (net : Network) × (upload_bytes toy no_cipher sender random 4 "f" "name"
        ("n" ∷ [])
        file
        network
      ≡ some (m, net))
    × (download toy no_cipher m net ≡ Result.done file)
upload_then_download_example =
    upload_then_download toy no_cipher (λ key nonce plain aad. refl) random (λ i. refl) (λ i. refl)
      "f" sender 4 "name" "n" [] file network (chunk 0 file ∷ []) whole-is_split (omega arith)
      (empty_node, node-is_up) (tt, tt) (nothing-held, tt)

kept-answers : retrieve_chunk "a" kept ≡ some file
unfolding retrieve_chunk store_chunk get put
kept-answers = refl

abbrev asked : StorageChallenge
asked = issue "c" "r" "a" "n" 5

challenge_node_trusts_node_example :
    (p : StorageProof) × (challenge_node toy "p" asked "n" "BC_h" "f" 6 kept ≡ some p)
    × (is_valid p ≡ true)
    × (p.bytes_stored ≡ length file)
unfolding issue
challenge_node_trusts_node_example =
    challenge_node_trusts_node toy "p" "n" "BC_h" "f" asked 6 kept file kept-answers

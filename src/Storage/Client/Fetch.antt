-- ===== src/Storage/Client/Fetch.antt =====
-- What the places that the upload recorded answer after all chunks were sent out.
use border.Prelude.{
  ℕ, ◌<◌, ◌≡◌, ◌≢◌, refl, sym, ◌∙◌, String, some, List, [], ◌∷◌, length, All, All-map, arith,
  eq_iff,
}
use border.Prelude.Dict.{Dict, get_or, put, get_or-put}
use border.Storage.{Chunk}
use border.Storage.Client.{Network, Sender, distribute_chunk, place_all, fetch_chunk}
use border.Storage.Client.Places.{
  held, IsUp, Only, distribute_chunk-other, distribute_chunk-Placed, distribute_chunk-IsUp,
  distribute_chunk-somewhere,
}

-- No two chunks have the same id.
abbrev pub AreDistinct : List Chunk → Type 0
AreDistinct [] = Unit
AreDistinct (c ∷ cs) = All (λ d. c.chunk_id ≢ d.chunk_id) cs × AreDistinct cs

fetch_chunk-first :
    (id : String) (bytes : List ℕ) (places : List String) (net : Network)
    → 0 < length places
    → All (λ n. held id n net ≡ some bytes) places
    → fetch_chunk id places net ≡ some bytes
unfolding fetch_chunk
fetch_chunk-first id bytes [] net h all = absurd (omega arith)
fetch_chunk-first id bytes (n ∷ ns) net h all = rw (all.0) refl

fetch_chunk-same :
    (id : String) (places : List String) (net net' : Network)
    → ((m : String) → held id m net' ≡ held id m net)
    → fetch_chunk id places net' ≡ fetch_chunk id places net
unfolding fetch_chunk
fetch_chunk-same id [] net net' h = refl
fetch_chunk-same id (n ∷ ns) net net' h = rw (h n, fetch_chunk-same id ns net net' h) refl

module _ (w : Sender) (n : String) (ns : List String) where
  place_all-other :
      (cs : List Chunk) (places : Dict (List String)) (net : Network) (id : String)
      → All (λ c. c.chunk_id ≢ id) cs
      → (get_or id [] (place_all w (n ∷ ns) cs places net).0 ≡ get_or id [] places)
        × ((m : String) → held id m (place_all w (n ∷ ns) cs places net).1 ≡ held id m net)
  unfolding place_all
  place_all-other [] places net id h = (refl, λ m. refl)
  place_all-other (c ∷ cs) places net id h =
      let d = distribute_chunk w c (n ∷ ns) [] net in
      let rest = place_all-other cs (put c.chunk_id d.0 places) d.1 id h.1 in
      (
        rest.0 ∙ ground (arith, get_or-put c.chunk_id id [] d.0 places, eq_iff c.chunk_id id, h.0),
        λ m. rest.1 m ∙ distribute_chunk-other w c (n ∷ ns) net id m h.0,
      )

  Only-all :
      (c : Chunk) (cs : List Chunk) (net : Network)
      → All (λ d. c.chunk_id ≢ d.chunk_id) cs
      → All (λ d. Only d net) cs
      → All (λ d. Only d (distribute_chunk w c (n ∷ ns) [] net).1) cs
  Only-all c [] net differ only = tt
  Only-all c (d ∷ cs) net differ only = (
    λ m. rw (distribute_chunk-other w c (n ∷ ns) net d.chunk_id m differ.0) (only.0 m),
    Only-all c cs net differ.1 only.1,
  )

  module _ (copies : 0 < w.replication) where
    pub place_all-fetched :
        (cs : List Chunk) (places : Dict (List String)) (net : Network)
        → IsUp n net
        → All (λ c. 0 < length c.ciphertext) cs
        → AreDistinct cs
        → All (λ c. Only c net) cs
        → All
            (λ c.
              fetch_chunk c.chunk_id
                (get_or c.chunk_id [] (place_all w (n ∷ ns) cs places net).0)
                (place_all w (n ∷ ns) cs places net).1
              ≡ some c.ciphertext)
            cs
    unfolding place_all
    place_all-fetched [] places net up full distinct only = tt
    place_all-fetched (c ∷ cs) places net up full distinct only =
        let d = distribute_chunk w c (n ∷ ns) [] net in
        let placed = distribute_chunk-Placed w c (n ∷ ns) net only.0 in
        let others = place_all-other cs (put c.chunk_id d.0 places) d.1 c.chunk_id (
          All-map (λ e. c.chunk_id ≢ e.chunk_id) (λ e. e.chunk_id ≢ c.chunk_id)
            (λ e differ same. differ (sym same)) cs distinct.0) in
        let here : get_or c.chunk_id [] (put c.chunk_id d.0 places) ≡ d.0 =
          ground
            (arith, get_or-put c.chunk_id c.chunk_id [] d.0 places, eq_iff c.chunk_id c.chunk_id) in
        (
          rw (others.0 ∙ here) (
              fetch_chunk-same c.chunk_id d.0 d.1 _ others.1
              ∙ fetch_chunk-first c.chunk_id c.ciphertext d.0 d.1
                  (distribute_chunk-somewhere w c n ns net copies full.0 up) placed.1),
          place_all-fetched cs (put c.chunk_id d.0 places) d.1
              (distribute_chunk-IsUp w c (n ∷ ns) net n up) full.1 distinct.1
              (Only-all c cs net distinct.0 only.1),
        )

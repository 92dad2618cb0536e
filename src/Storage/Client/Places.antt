-- ===== src/Storage/Client/Places.antt =====
-- Which endpoints hold a chunk while chunks are sent out.
use mathlib.Core.Option.{some-injective}
use border.Prelude.{
  ℕ, ◌<◌, ◌≡◌, ◌≢◌, ◌⊎◌, refl, sym, ap, ◌∙◌, String, false, Option, none, some, inl, inr, List, [],
  ◌∷◌, ◌++◌, length, length-append, All, leb, arith, str_eq, eq_iff, Bool-cases, Option-cases,
  if◌then◌else◌,
}
use border.Prelude.Dict.{get, put, get-put}
use border.Runtime.{◌>>=◌}
use border.Storage.{Chunk}
use border.Storage.Node.{StorageNode, store_chunk, retrieve_chunk}
use border.Storage.Client.{Network, Sender, store_request, post_chunk, if_posted, distribute_chunk}

-- What an endpoint answers when it is asked for a chunk.
abbrev pub held : String → String → Network → Option (List ℕ)
held id n net = get n net >>= retrieve_chunk id

-- The chunk's own ciphertext is all that is held under its id.
abbrev pub Only : Chunk → Network → Type 0
Only c net =
    (m : String) → (held c.chunk_id m net ≡ none) ⊎ (held c.chunk_id m net ≡ some c.ciphertext)

-- Every place holds the chunk, and under its id nothing else is held.
abbrev pub Placed : Chunk → List String → Network → Type 0
Placed c placed net = Only c net × All (λ n. held c.chunk_id n net ≡ some c.ciphertext) placed

-- The endpoint answers.
abbrev pub IsUp : String → Network → Type 0
IsUp n net = (s : StorageNode) × (get n net ≡ some s)

module _ (w : Sender) where
  store_chunk-other :
      (c : Chunk) (id : String) (bytes : List ℕ) (s : StorageNode)
      → c.chunk_id ≢ id
      → retrieve_chunk id (store_chunk c.chunk_id bytes c.file_id w.owner_address w.now s)
        ≡ retrieve_chunk id s
  unfolding store_chunk retrieve_chunk
  store_chunk-other c id bytes s other =
      ground (arith, get-put c.chunk_id id bytes s.chunks, eq_iff c.chunk_id id)

  store_chunk-own :
      (c : Chunk) (bytes : List ℕ) (s : StorageNode)
      → (retrieve_chunk c.chunk_id s ≡ none) ⊎ (retrieve_chunk c.chunk_id s ≡ some bytes)
      → retrieve_chunk c.chunk_id (store_chunk c.chunk_id bytes c.file_id w.owner_address w.now s)
        ≡ some bytes
  unfolding store_chunk retrieve_chunk
  store_chunk-own c bytes s only =
      ground
        (arith, only, get-put c.chunk_id c.chunk_id bytes s.chunks, eq_iff c.chunk_id c.chunk_id)

  abbrev stored : Chunk → StorageNode → StorageNode
  stored c s = store_chunk c.chunk_id c.ciphertext c.file_id w.owner_address w.now s

  store_request-some :
      (c : Chunk) (bytes : List ℕ) (s s' : StorageNode)
      → store_request w c bytes s ≡ some s'
      → s' ≡ store_chunk c.chunk_id bytes c.file_id w.owner_address w.now s
  unfolding store_request
  store_request-some c [] s s' h = absurd (cc h)
  store_request-some c (b ∷ bs) s s' h = ground (arith, h)

  post_chunk-some :
      (c : Chunk) (n : String) (net net' : Network)
      → post_chunk w c n net ≡ some net'
      → (s : StorageNode) × (get n net ≡ some s) × (net' ≡ put n (stored c s) net)
  unfolding post_chunk
  post_chunk-some c n net net' h = elim (Option-cases (get n net)) [
    | inl e ↦ absurd (cc (rw e at h))
    | inr (s, e) ↦
        let h' : (store_request w c c.ciphertext s >>= (λ t. some (put n t net))) ≡ some net' =
          rw e at h in
        elim (Option-cases (store_request w c c.ciphertext s)) [
          | inl e' ↦ absurd (cc (rw e' at h'))
          | inr (t, e') ↦ (
            s,
            e,
            sym (some-injective (put n t net) net' (rw e' at h'))
                ∙ ap (λ x. put n x net) (store_request-some c c.ciphertext s t e'),
          )
        ]
  ]

  held-put :
      (id n m : String) (s : StorageNode) (net : Network)
      → held id m (put n s net) ≡ (if str_eq n m then retrieve_chunk id s else held id m net)
  held-put id n m s net = ground (arith, get-put n m s net)

  -- A request for another chunk changes nothing of the answers for this one.
  post_chunk-other :
      (c : Chunk) (id n m : String) (net net' : Network)
      → c.chunk_id ≢ id
      → post_chunk w c n net ≡ some net'
      → held id m net' ≡ held id m net
  post_chunk-other c id n m net net' other h =
      let (s, found, e) = post_chunk-some c n net net' h in
      rw e (
        ground (
          arith,
          held-put id n m (stored c s) net,
          store_chunk-other c id c.ciphertext s other,
          found,
          eq_iff n m,
        ))

  post_chunk-own :
      (c : Chunk) (n m : String) (net net' : Network)
      → Only c net
      → post_chunk w c n net ≡ some net'
      → held c.chunk_id m net' ≡ (if str_eq n m then some c.ciphertext else held c.chunk_id m net)
  post_chunk-own c n m net net' only h =
      let (s, found, e) = post_chunk-some c n net net' h in
      rw e (
        ground (
          arith,
          held-put c.chunk_id n m (stored c s) net,
          store_chunk-own c c.ciphertext s,
          only n,
          found,
        ))

  -- A property of the places and the network that each request keeps holds after all of them.
  distribute_chunk-keeps {κ} :
      (c : Chunk) (P : List String → Network → Type κ)
      → ((n : String) (placed : List String) (net net' : Network)
          → post_chunk w c n net ≡ some net'
          → P placed net
          → P (placed ++ n ∷ []) net')
      → (ns placed : List String) (net : Network) → P placed net
      → P (distribute_chunk w c ns placed net).0 (distribute_chunk w c ns placed net).1
  unfolding distribute_chunk if_posted
  distribute_chunk-keeps c P step [] placed net h = h
  distribute_chunk-keeps c P step (n ∷ ns) placed net h =
      elim (Bool-cases (leb w.replication (length placed))) [
        | inl enough ↦ rw enough h
        | inr more ↦ rw more (elim (Option-cases (post_chunk w c n net)) [
          | inl e ↦ rw e (distribute_chunk-keeps c P step ns placed net h)
          | inr (net', e) ↦ rw e (
              distribute_chunk-keeps c P step ns (placed ++ n ∷ []) net'
                (step n placed net net' e h))
        ])
      ]

  pub distribute_chunk-other :
      (c : Chunk) (ns : List String) (net : Network) (id m : String)
      → c.chunk_id ≢ id
      → held id m (distribute_chunk w c ns [] net).1 ≡ held id m net
  distribute_chunk-other c ns net id m other =
      distribute_chunk-keeps c (λ placed net'. held id m net' ≡ held id m net)
        (λ n placed net₁ net₂ e h. post_chunk-other c id n m net₁ net₂ other e ∙ h) ns [] net refl

  post_chunk-Only :
      (c : Chunk) (n : String) (net net' : Network)
      → post_chunk w c n net ≡ some net'
      → Only c net
      → Only c net'
  post_chunk-Only c n net net' e only m =
      ground (arith, post_chunk-own c n m net net' only e, only m)

  All-posted :
      (c : Chunk) (n : String) (net net' : Network) (placed : List String)
      → post_chunk w c n net ≡ some net'
      → Only c net
      → All (λ p. held c.chunk_id p net ≡ some c.ciphertext) placed
      → All (λ p. held c.chunk_id p net' ≡ some c.ciphertext) (placed ++ n ∷ [])
  All-posted c n net net' [] e only h =
      (ground (arith, post_chunk-own c n n net net' only e, eq_iff n n), tt)
  All-posted c n net net' (p ∷ placed) e only h = (
    ground (arith, post_chunk-own c n p net net' only e, h.0),
    All-posted c n net net' placed e only h.1,
  )

  pub distribute_chunk-Placed :
      (c : Chunk) (ns : List String) (net : Network)
      → Only c net
      → Placed c (distribute_chunk w c ns [] net).0 (distribute_chunk w c ns [] net).1
  distribute_chunk-Placed c ns net only =
      distribute_chunk-keeps c (Placed c)
        (λ n placed net₁ net₂ e h.
          (post_chunk-Only c n net₁ net₂ e h.0, All-posted c n net₁ net₂ placed e h.0 h.1))
        ns [] net (only, tt)

  pub distribute_chunk-IsUp :
      (c : Chunk) (ns : List String) (net : Network) (m : String)
      → IsUp m net
      → IsUp m (distribute_chunk w c ns [] net).1
  distribute_chunk-IsUp c ns net m up =
      distribute_chunk-keeps c (λ placed net'. IsUp m net')
        (λ n placed net₁ net₂ e h.
          let (s, found, e') = post_chunk-some c n net₁ net₂ e in
          elim (Bool-cases (str_eq n m)) [
            | inl same ↦ (stored c s, rw e' (ground (arith, get-put n m (stored c s) net₁, same)))
            | inr other ↦ (h.0, rw e' (ground (arith, get-put n m (stored c s) net₁, other, h.1)))
          ])
        ns [] net up

  store_request-full :
      (c : Chunk) (bytes : List ℕ) (s : StorageNode)
      → 0 < length bytes
      → (s' : StorageNode) × (store_request w c bytes s ≡ some s')
  unfolding store_request
  store_request-full c [] s h = absurd (omega arith)
  store_request-full c (b ∷ bs) s h = (_, refl)

  post_chunk-up :
      (c : Chunk) (n : String) (net : Network)
      → 0 < length c.ciphertext
      → IsUp n net
      → (net' : Network) × (post_chunk w c n net ≡ some net')
  unfolding post_chunk
  post_chunk-up c n net full (s, up) =
      let (s', e) = store_request-full c c.ciphertext s full in (put n s' net, rw (up, e) refl)

  -- The first endpoint, if it answers, is among the places.
  pub distribute_chunk-somewhere :
      (c : Chunk) (n : String) (ns : List String) (net : Network)
      → 0 < w.replication
      → 0 < length c.ciphertext
      → IsUp n net
      → 0 < length (distribute_chunk w c (n ∷ ns) [] net).0
  unfolding distribute_chunk if_posted
  distribute_chunk-somewhere c n ns net copies full up =
      let (net', e) = post_chunk-up c n net full up in
      let few : leb w.replication 0 ≡ false = ground arith in
      rw (few, e)
        (distribute_chunk-keeps c (λ placed net''. 0 < length placed)
          (λ m placed net₁ net₂ e' h. omega (arith, length-append placed (m ∷ []), h)) ns (n ∷ [])
          net' (omega arith))

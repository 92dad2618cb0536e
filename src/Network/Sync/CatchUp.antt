-- ===== src/Network/Sync/CatchUp.antt =====
-- `_sync_from` with a peer that serves an extension of our chain, in batches.
use mathlib.Core.List.{append-nil, append_assoc}
use mathlib.Core.WellFounded.{Acc}
use mathlib.Core.Logic.{dif_pos, dif_neg}
use native.Mathlib.Bridge.{le_prop}
use border.Prelude.{
  ℕ, zero, suc, ◌+◌, ◌-◌, ◌<◌, ◌≤◌, subst, ◌≡◌, ◌≢◌, refl, sym, ap, ◌∙◌, inl, inr, true, arith,
  dec_lt, Bool-cases, none, some, List, [], ◌∷◌, ◌++◌, map, length, take, drop, get_elem?, last,
  drop-length-append, length-drop, drop-drop, leb, eq_iff,
}
use border.Runtime.{Runtime}
use border.Block.{Block, to_dict}
use border.Block.Codec.{block_from_dict-to_dict}
use border.Chain.{Chain, blocks, latest_block, height, block_hash_at, blocks_range}
use border.Chain.Validate.{valid, validate_block}
use border.Chain.Produce.{add_block, accept_block, decided}
use border.Network.Peer.{Peer}
use border.Network.Server.{served, block_hash, serve_blocks}
use border.Network.Sync.{
  Foreign, min, batch_size, best_peer, sync_pass, Span, ◌⊏◌, Answers, agrees, find_fork, if_added,
  if_read, if_applied, answered, apply_blocks, batch_end, later_batches, later_batches-⊏, download,
  sync_from,
}

-- `add_block` with each of the blocks in turn.
unfoldable pub extend : List Block → Chain → Chain
extend [] c = c
extend (b ∷ bs) c = extend bs (accept_block b c)

min-left : (a b : ℕ) → a ≤ b → min a b ≡ a
min-left a b h = ground arith

module _ (rt : Runtime) (odd : Foreign) where
  -- Each of the blocks is valid behind those before it.
  abbrev pub AreValid : List Block → Chain → Type 0
  AreValid [] c = Unit
  AreValid (b ∷ bs) c = (validate_block rt c b ≡ valid) × AreValid bs (accept_block b c)

  -- A peer that gives the hashes and, up to the size of a batch, the blocks of `bs`.
  record Serves (peer : Answers) (bs : List Block) : Type 0 where
    hashes :
        (i : ℕ)
        → peer.fetch_block_hash i
          ≡ elim (get_elem? bs i) [ none ↦ none | some b ↦ some b.block_hash ]
    batches :
        (s e : ℕ)
        → e < s + batch_size
        → peer.fetch_blocks s e ≡ map to_dict (take (e + 1 - s) (drop s bs))

  -- The handlers of a peer do so: their limit is above the size of a batch.
  served-Serves : (theirs : Chain) → Serves (served theirs) (blocks theirs)
  unfolding served block_hash serve_blocks block_hash_at blocks_range
  served-Serves theirs = record {
    hashes = λ i. refl;
    batches = λ s e h. rw (min-left e (s + 200) (omega arith)) refl;
  }

  apply_blocks-extend :
      (bs : List Block) (c : Chain)
      → AreValid bs c
      → apply_blocks rt odd (map to_dict bs) c ≡ (true, extend bs c)
  unfolding apply_blocks extend if_read if_added add_block decided
  apply_blocks-extend [] c h = refl
  apply_blocks-extend (b ∷ bs) c h =
      rw (block_from_dict-to_dict b, h.0) (apply_blocks-extend bs (accept_block b c) h.1)

  AreValid-split :
      (n : ℕ) (bs : List Block) (c : Chain)
      → AreValid bs c
      → AreValid (take n bs) c
        × AreValid (drop n bs) (extend (take n bs) c)
        × (extend (drop n bs) (extend (take n bs) c) ≡ extend bs c)
  unfolding extend
  AreValid-split zero bs c h = (tt, h, refl)
  AreValid-split (suc n) [] c h = (tt, tt, refl)
  AreValid-split (suc n) (b ∷ bs) c h =
      let rest = AreValid-split n bs (accept_block b c) h.1 in ((h.0, rest.0), rest.1, rest.2)

  answered-extend :
      (next : Chain → Chain) (n : ℕ) (bs : List Block) (c : Chain)
      → 0 < n
      → 0 < length bs
      → AreValid bs c
      → answered rt odd next (map to_dict (take n bs)) c ≡ next (extend (take n bs) c)
  unfolding answered if_applied
  answered-extend next zero bs c h l v = elim h [ ]
  answered-extend next (suc n) [] c h l v = elim l [ ]
  answered-extend next (suc n) (b ∷ bs) c h l v =
      rw (apply_blocks-extend (b ∷ take n bs) c (AreValid-split (suc n) (b ∷ bs) c v).0) refl

  extend-nil : (bs : List Block) (c : Chain) → length bs ≡ 0 → c ≡ extend bs c
  unfolding extend
  extend-nil [] c h = refl
  extend-nil (b ∷ bs) c h = absurd (omega arith)

  batch-size : (r : Span) → r.lo < r.hi → r.lo + (batch_end r + 1 - r.lo) ≡ batch_end r + 1
  batch-size r h = ground arith

  -- The loop, when what is left of the peer's chain behind `lo` is `bs`.
  download-extend :
      (peer : Answers) (all : List Block) (serves : Serves peer all) (r : Span) (w : Acc ◌⊏◌ r)
      (bs : List Block) (c : Chain)
      → drop r.lo all ≡ bs
      → r.lo + length bs ≡ r.hi
      → AreValid bs c
      → download rt odd peer r w c ≡ extend bs c
  unfolding download
  download-extend peer all serves r (Acc.intro _ inner) bs c left most v = elim (dec_lt r.lo r.hi) [
    | no done ↦ rw (dif_neg (dec_lt r.lo r.hi) done) (extend-nil bs c (omega arith))
    | yes go ↦
        let n = batch_end r + 1 - r.lo in
        let parts = AreValid-split n bs c v in
        rw
          (
            dif_pos (dec_lt r.lo r.hi) le_prop go,
            serves.batches r.lo (batch_end r) (ground arith),
            left,
            answered-extend
                (download rt odd peer (later_batches r) (inner _ (later_batches-⊏ r go))) n bs c
                (ground arith) (omega arith) v,
          )
          (download-extend peer all serves (later_batches r) (inner _ (later_batches-⊏ r go))
              (drop n bs) (extend (take n bs) c)
              (ap (λ k. drop k all) (sym (batch-size r go))
                ∙ sym (drop-drop n r.lo all)
                ∙ ap (drop n) left)
              (ground (arith, length-drop n bs, batch-size r go)) parts.1
            ∙ parts.2)
  ]

  get_elem?-last :
      (x : Block) (xs ys : List Block) → get_elem? (x ∷ xs ++ ys) (length xs) ≡ some (last x xs)
  get_elem?-last x [] ys = refl
  get_elem?-last x (y ∷ xs) ys = get_elem?-last y xs ys

  get_elem?-end : (x : Block) (xs : List Block) → get_elem? (x ∷ xs) (length xs) ≡ some (last x xs)
  get_elem?-end x [] = refl
  get_elem?-end x (y ∷ xs) = get_elem?-end y xs

  agrees-tip :
      (peer : Answers) (bs : List Block) (c : Chain)
      → Serves peer (blocks c ++ bs)
      → (latest_block c).block_hash ≢ ""
      → agrees peer c (length c.later) ≡ true
  unfolding agrees block_hash_at
  agrees-tip peer bs c serves named =
      let tip = (latest_block c).block_hash in
      rw
        (
          serves.hashes (length c.later),
          get_elem?-last c.first c.later bs,
          block_hash_at,
          get_elem?-end c.first c.later,
        )
        (ground (arith, eq_iff tip "", eq_iff tip tip))

  blocks-extend : (bs : List Block) (c : Chain) → blocks (extend bs c) ≡ blocks c ++ bs
  unfolding extend accept_block
  blocks-extend [] c = sym (append-nil (blocks c))
  blocks-extend (b ∷ bs) c =
      blocks-extend bs (accept_block b c) ∙ append_assoc (blocks c) (b ∷ []) bs

  sync_from-extend :
      (peer : Answers) (bs : List Block) (c : Chain)
      → Serves peer (blocks c ++ bs)
      → (latest_block c).block_hash ≢ ""
      → AreValid bs c
      → sync_from rt odd peer (height c) (height c + length bs) c ≡ extend bs c
  unfolding sync_from find_fork
  sync_from-extend peer bs c serves named v =
      let tip : height c ≡ length c.later = omega arith in
      let next : length c.later + 1 ≡ suc (length c.later) = omega arith in
      rw (tip, agrees-tip peer bs c serves named)
        (download-extend peer (blocks c ++ bs) serves _ _ bs c
          (ap (λ k. drop k (blocks c ++ bs)) next ∙ drop-length-append c.later bs) (omega arith) v)

  -- A pass of the synchronisation catches up with the highest peer. That peer answers with its
  -- handlers from a chain of our blocks and then `bs`, and its height is the one that we know of; our
  -- last block has a hash that is not empty; each of `bs` is valid behind those before it. Then our
  -- chain becomes our blocks and then `bs`, each added in turn.
  pub sync_pass_catches_up :
      (ask : Peer → Answers) (p : Peer) (ps : List Peer) (bs : List Block) (c theirs : Chain)
      → ask (best_peer p ps) ≡ served theirs
      → blocks theirs ≡ blocks c ++ bs
      → (best_peer p ps).chain_height ≡ height c + length bs
      → (latest_block c).block_hash ≢ ""
      → AreValid bs c
      → (sync_pass rt odd ask (p ∷ ps) c ≡ extend bs c) × (blocks (extend bs c) ≡ blocks c ++ bs)
  unfolding sync_pass best_peer
  sync_pass_catches_up ask p ps bs c theirs answers same tall named v =
      let best = best_peer p ps in
      let serves : Serves (ask best) (blocks c ++ bs) =
        rw answers (subst (Serves (served theirs)) same (served-Serves theirs)) in
      let synced = sync_from-extend (ask best) bs c serves named v in
      (
        elim (Bool-cases (leb best.chain_height (height c))) [
          | inl e ↦ rw e (extend-nil bs c (ground arith))
          | inr e ↦ rw (e, tall) synced
        ],
        blocks-extend bs c,
      )

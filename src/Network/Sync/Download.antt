-- ===== src/Network/Sync/Download.antt =====
-- `_sync_from` and `_sync_pass` of border/p2p/sync.py: what the answers of a peer do to the chain.
use mathlib.Core.WellFounded.{Acc}
use mathlib.Core.Logic.{dif_pos, dif_neg}
use native.Mathlib.Bridge.{le_prop}
use border.Prelude.{
  ℕ, ◌<◌, ◌≡◌, ◌≢◌, refl, sym, ◌∙◌, inl, inr, Bool, false, arith, dec_lt, Bool-cases, All, List, [],
  ◌∷◌, leb,
}
use border.Runtime.{Runtime, Fields}
use border.Decoding.{Decoded, raised, foreign, read}
use border.Block.{Block, from_dict}
use border.Chain.{Chain, chain_length, height}
use border.Chain.Validate.{wrong_index, validate_block}
use border.Chain.Produce.{add_block, decided, is_valid}
use border.Chain.Reorg.Laws.{IsSound}
use border.Chain.Steps.{Reach, Step, Reach-IsSound}
use border.Network.Peer.{Peer}
use border.Network.Sync.{
  Foreign, Span, ◌⊏◌, Answers, find_fork, if_added, if_read, if_applied, answered, apply_blocks,
  later_batches, later_batches-⊏, download, sync_from, best_peer, sync_pass,
}

-- The fields that are there have the JSON types that `from_dict` of a block declares.
abbrev pub IsTyped : Fields → Type 0
IsTyped d = from_dict d ≢ foreign

-- What was read is an exception, or a block with the index `i`.
abbrev pub IsAt : ℕ → Decoded Block → Type 0
IsAt i raised = Unit
IsAt i foreign = ⊥
IsAt i (read b) = b.index ≡ i

abbrev pub StartsAt : ℕ → List Fields → Type 0
StartsAt i [] = Unit
StartsAt i (d ∷ ds) = IsAt i (from_dict d)

module _ (rt : Runtime) (odd : Foreign) where
  if_read-Reach :
      (next : Chain → Bool × Chain)
      → ((c : Chain) → Reach rt c → Reach rt (next c).1)
      → (d : Fields) (o : Decoded Block) (c : Chain) → o ≢ foreign
      → Reach rt c
      → Reach rt (if_read rt odd d next o c).1
  unfolding if_read if_added
  if_read-Reach next later d raised c typed h = h
  if_read-Reach next later d foreign c typed h = absurd (typed refl)
  if_read-Reach next later d (read b) c typed h =
      let added = Reach.next h (Step.added_block b) in
      elim (Bool-cases (is_valid (add_block rt b c).0)) [
        | inl e ↦ rw e (later _ added)
        | inr e ↦ rw e added
      ]

  apply_blocks-Reach :
      (ds : List Fields) (c : Chain)
      → All IsTyped ds
      → Reach rt c
      → Reach rt (apply_blocks rt odd ds c).1
  unfolding apply_blocks
  apply_blocks-Reach [] c typed h = h
  apply_blocks-Reach (d ∷ ds) c typed h =
      if_read-Reach _ (λ c'. apply_blocks-Reach ds c' typed.1) d (from_dict d) c typed.0 h

  answered-Reach :
      (next : Chain → Chain)
      → ((c : Chain) → Reach rt c → Reach rt (next c))
      → (ds : List Fields) (c : Chain) → All IsTyped ds
      → Reach rt c
      → Reach rt (answered rt odd next ds c)
  unfolding answered if_applied
  answered-Reach next later [] c typed h = h
  answered-Reach next later (d ∷ ds) c typed h =
      let applied = apply_blocks-Reach (d ∷ ds) c typed h in
      elim (Bool-cases (apply_blocks rt odd (d ∷ ds) c).0) [
        | inl e ↦ rw e (later _ applied)
        | inr e ↦ rw e applied
      ]

  download-Reach :
      (peer : Answers)
      → ((start end : ℕ) → All IsTyped (peer.fetch_blocks start end))
      → (r : Span) (w : Acc ◌⊏◌ r) (c : Chain) → Reach rt c
      → Reach rt (download rt odd peer r w c)
  unfolding download
  download-Reach peer typed r (Acc.intro _ inner) c h = elim (dec_lt r.lo r.hi) [
    | no done ↦ rw (dif_neg (dec_lt r.lo r.hi) done) h
    | yes go ↦ rw (dif_pos (dec_lt r.lo r.hi) le_prop go) (
        answered-Reach _
          (download-Reach peer typed (later_batches r) (inner _ (later_batches-⊏ r go))) _ c
          (typed _ _) h)
  ]

  sync_pass-Reach :
      (ask : Peer → Answers) (peers : List Peer) (c : Chain)
      → ((p : Peer) (start end : ℕ) → All IsTyped ((ask p).fetch_blocks start end))
      → Reach rt c
      → Reach rt (sync_pass rt odd ask peers c)
  unfolding sync_pass sync_from
  sync_pass-Reach ask [] c typed h = h
  sync_pass-Reach ask (p ∷ ps) c typed h =
      elim (Bool-cases (leb (best_peer p ps).chain_height (height c))) [
        | inl e ↦ rw e h
        | inr e ↦ rw e (download-Reach (ask (best_peer p ps)) (typed (best_peer p ps)) _ _ c h)
      ]

  -- Whatever the peers are, and whatever they answer with fields of the declared JSON types (keys may
  -- be missing, and no block need be valid), a pass of the synchronisation of a chain that the chain's
  -- operations reach from the initial chain is itself such a sequence of calls, and leaves a valid
  -- chain, with the balances and the spent ids that its blocks give.
  pub sync_pass-IsSound :
      (ask : Peer → Answers) (peers : List Peer) (c : Chain)
      → ((p : Peer) (start end : ℕ) → All IsTyped ((ask p).fetch_blocks start end))
      → Reach rt c
      → Reach rt (sync_pass rt odd ask peers c) × IsSound rt (sync_pass rt odd ask peers c)
  sync_pass-IsSound ask peers c typed h =
      let reached = sync_pass-Reach ask peers c typed h in (reached, Reach-IsSound rt reached)

  add_block_wrong_index :
      (b : Block) (c : Chain)
      → b.index ≢ chain_length c
      → add_block rt b c ≡ (wrong_index (chain_length c) b.index, c)
  unfolding add_block decided validate_block
  add_block_wrong_index b c h = ground arith

  -- The block raises or has another index than the next one of our chain.
  if_read-same :
      (next : Chain → Bool × Chain) (d : Fields) (o : Decoded Block) (c : Chain) (i : ℕ)
      → i ≢ chain_length c
      → IsAt i o
      → if_read rt odd d next o c ≡ (false, c)
  unfolding if_read if_added
  if_read-same next d raised c i other h = refl
  if_read-same next d foreign c i other h = elim h [ ]
  if_read-same next d (read b) c i other h =
      rw (add_block_wrong_index b c (λ e. other (sym h ∙ e))) refl

  answered-same :
      (next : Chain → Chain) (ds : List Fields) (c : Chain) (i : ℕ)
      → i ≢ chain_length c
      → StartsAt i ds
      → answered rt odd next ds c ≡ c
  unfolding answered if_applied apply_blocks
  answered-same next [] c i other h = refl
  answered-same next (d ∷ ds) c i other h = rw (if_read-same _ d (from_dict d) c i other h) refl

  download-same :
      (peer : Answers) (r : Span) (w : Acc ◌⊏◌ r) (c : Chain)
      → ((end : ℕ) → StartsAt r.lo (peer.fetch_blocks r.lo end))
      → r.lo ≢ chain_length c
      → download rt odd peer r w c ≡ c
  unfolding download
  download-same peer r (Acc.intro _ inner) c asked other = elim (dec_lt r.lo r.hi) [
    | no done ↦ rw (dif_neg (dec_lt r.lo r.hi) done) refl
    | yes go ↦ rw (dif_pos (dec_lt r.lo r.hi) le_prop go) (answered-same _ _ c r.lo other (asked _))
  ]

  -- Where the fork point is below our tip, and an answer of the peer begins, if at all, with the block
  -- that was asked for or with one that raises, the download leaves our chain as it is.
  pub sync_from_behind_fork :
      (peer : Answers) (theirs : ℕ) (c : Chain)
      → ((start end : ℕ) → StartsAt start (peer.fetch_blocks start end))
      → find_fork peer (height c) theirs c < height c
      → sync_from rt odd peer (height c) theirs c ≡ c
  unfolding sync_from
  sync_from_behind_fork peer theirs c asked fork =
      download-same peer _ _ c (λ end. asked _ end) (omega arith)

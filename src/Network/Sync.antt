-- ===== src/Network/Sync.antt =====
-- border/p2p/sync.py: the fork point with a peer, and the blocks that are taken from it.
pub mod Fork
pub mod Download
pub mod CatchUp
use mathlib.Core.WellFounded.{Acc, WellFounded}
use mathlib.Core.Logic.{dite}
use border.Prelude.{
  ℕ, zero, suc, ◌+◌, ◌-◌, ◌/◌, ◌<◌, ◌≤◌, String, Bool, true, false, Option, none, some, List, [],
  ◌∷◌, arith, dec_lt, ltb, leb, str_eq, if◌then◌else◌,
}
use border.Runtime.{Runtime, Fields}
use border.Decoding.{Decoded, raised, foreign, read}
use border.Block.{Block, from_dict}
use border.Chain.{Chain, chain_length, height, block_hash_at}
use border.Chain.Validate.{Verdict}
use border.Chain.Produce.{add_block, is_valid}
use border.Network.Peer.{Peer}

-- The loop variables of `_find_fork`.
pub record Span : Type 0 where
  pub lo : ℕ
  pub hi : ℕ

infix 50 ◌⊏◌
abbrev pub ◌⊏◌ : Span → Span → Type 0
r ⊏ s = r.hi - r.lo < s.hi - s.lo

⊏-Acc : (k : ℕ) (r : Span) → r.hi - r.lo < k → Acc ◌⊏◌ r
⊏-Acc zero r h = elim h [ ]
⊏-Acc (suc k) r h = Acc.intro r (λ s closer. ⊏-Acc k s (omega arith))

unfoldable pub ⊏_wf : WellFounded ◌⊏◌
unfolding ⊏-Acc
⊏_wf = record { apply = λ r. ⊏-Acc (suc (r.hi - r.lo)) r (omega arith) }

abbrev pub mid : Span → ℕ
mid r = (r.lo + r.hi + 1) / 2

-- `lo = mid`, and `hi = mid - 1`
abbrev pub upper : Span → Span
upper r = record r { lo = mid r }

abbrev pub lower : Span → Span
lower r = record r { hi = mid r - 1 }

pub upper-⊏ : (r : Span) → r.lo < r.hi → upper r ⊏ r
upper-⊏ r h = omega arith

pub lower-⊏ : (r : Span) → r.lo < r.hi → lower r ⊏ r
lower-⊏ r h = omega arith

-- `peer_hash and peer_hash == our_hash`: an empty answer is as good as none.
abbrev pub same_hash : Option String → Option String → Bool
same_hash none ours = false
same_hash (some theirs) none = false
same_hash (some theirs) (some ours) = if str_eq theirs "" then false else str_eq theirs ours

-- What the peer answers is a parameter: `fetch_block_hash index` and `fetch_blocks start end`,
-- with nothing where the request fails.
pub record Answers : Type 0 where
  pub fetch_block_hash : ℕ → Option String
  pub fetch_blocks : ℕ → ℕ → List Fields

unfoldable pub agrees : Answers → Chain → ℕ → Bool
agrees peer c i = same_hash (peer.fetch_block_hash i) (block_hash_at i c)

unfoldable pub fork_loop : (ℕ → Bool) → (r : Span) → Acc ◌⊏◌ r → ℕ
fork_loop agree r (Acc.intro _ inner) =
    dite (dec_lt r.lo r.hi)
      (λ h. elim (agree (mid r)) [
        | true ↦ fork_loop agree (upper r) (inner _ (upper-⊏ r h))
        | false ↦ fork_loop agree (lower r) (inner _ (lower-⊏ r h))
      ])
      (λ _. r.lo)

abbrev pub min : ℕ → ℕ → ℕ
min a b = if leb a b then a else b

unfoldable pub find_fork : Answers → ℕ → ℕ → Chain → ℕ
find_fork peer our_height peer_height c =
    if agrees peer c our_height
    then our_height
    else fork_loop (agrees peer c) (record { lo = 0; hi = min our_height peer_height })
        (⊏_wf.apply _)

abbrev pub batch_size : ℕ
batch_size = 50

-- What the program makes of a block that has a value of another JSON type than declared, and whether
-- it goes on behind it, is a parameter: `from_dict` lets such a block through.
abbrev pub Foreign : Type 0
Foreign = Fields → Chain → Bool × Chain

-- A block that is not added, or cannot be read, ends `_sync_from`; `next` goes on behind it.
unfoldable pub if_added : (Chain → Bool × Chain) → Verdict × Chain → Bool × Chain
if_added next added = if is_valid added.0 then next added.1 else (false, added.1)

abbrev pub if_gone_on : (Chain → Bool × Chain) → Bool × Chain → Bool × Chain
if_gone_on next r = if r.0 then next r.1 else r

unfoldable pub if_read :
    Runtime → Foreign → Fields → (Chain → Bool × Chain) → Decoded Block → Chain → Bool × Chain
if_read rt odd d next raised c = (false, c)
if_read rt odd d next foreign c = if_gone_on next (odd d c)
if_read rt odd d next (read b) c = if_added next (add_block rt b c)

-- The inner loop of `_sync_from` over the blocks of one answer; `false` where it returns.
unfoldable pub apply_blocks : Runtime → Foreign → List Fields → Chain → Bool × Chain
apply_blocks rt odd [] c = (true, c)
apply_blocks rt odd (d ∷ ds) c = if_read rt odd d (apply_blocks rt odd ds) (from_dict d) c

-- `start` is `lo`, and `hi` is the height of the peer and 1.
abbrev pub batch_end : Span → ℕ
batch_end r = min (r.lo + batch_size - 1) (r.hi - 1)

abbrev pub later_batches : Span → Span
later_batches r = record r { lo = batch_end r + 1 }

pub later_batches-⊏ : (r : Span) → r.lo < r.hi → later_batches r ⊏ r
later_batches-⊏ r h = ground arith

unfoldable pub if_applied : (Chain → Chain) → Bool × Chain → Chain
if_applied next applied = if applied.0 then next applied.1 else applied.1

-- An empty answer ends the download.
unfoldable pub answered : Runtime → Foreign → (Chain → Chain) → List Fields → Chain → Chain
answered rt odd next [] c = c
answered rt odd next (d ∷ ds) c = if_applied next (apply_blocks rt odd (d ∷ ds) c)

-- `while start <= peer_height`
unfoldable pub download : Runtime → Foreign → Answers → (r : Span) → Acc ◌⊏◌ r → Chain → Chain
download rt odd peer r (Acc.intro _ inner) c =
    dite (dec_lt r.lo r.hi)
      (λ h.
        answered rt odd (download rt odd peer (later_batches r) (inner _ (later_batches-⊏ r h)))
          (peer.fetch_blocks r.lo (batch_end r)) c)
      (λ _. c)

-- `fork_height` is never below 0, so its test has no branch here.
unfoldable pub sync_from : Runtime → Foreign → Answers → ℕ → ℕ → Chain → Chain
sync_from rt odd peer our_height peer_height c =
    download rt odd peer
      (record { lo = find_fork peer our_height peer_height c + 1; hi = peer_height + 1 })
      (⊏_wf.apply _) c

-- `max(peers, key=…)`: the first of the highest.
unfoldable pub best_peer : Peer → List Peer → Peer
best_peer best [] = best
best_peer best (p ∷ ps) = best_peer (if ltb best.chain_height p.chain_height then p else best) ps

-- `ask p` is what the peer `p` answers.
unfoldable pub sync_pass : Runtime → Foreign → (Peer → Answers) → List Peer → Chain → Chain
sync_pass rt odd ask [] c = c
sync_pass rt odd ask (p ∷ ps) c =
    let best = best_peer p ps in
    if leb best.chain_height (height c)
    then c
    else sync_from rt odd (ask best) (height c) best.chain_height c

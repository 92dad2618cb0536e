-- ===== src/Network/Tests.antt =====
-- The theorems on peers, gossip and synchronisation at concrete values.
use border.Prelude.{
  ℕ, zero, suc, ◌≤◌, ◌<◌, ◌+◌, ◌-◌, ◌≡◌, ◌≢◌, refl, sym, ◌∙◌, true, false, none, some, List, [],
  ◌∷◌, ◌++◌, map, take, drop, Bool-cases, inl, inr, get_elem?, arith, ◌==◌, if◌then◌else◌, eq_iff,
  subst, All,
}
use border.Runtime.{end}
use border.Decoding.{read}
use border.Block.{Block, to_dict, from_dict, genesis, compute_hash, finalize}
use border.Block.Codec.{block_from_dict-to_dict}
use border.Chain.{Chain, blocks, height, latest_block, block_hash_at}
use border.Chain.Produce.{accept_block, unsealed_block}
use border.Chain.Reorg.{initial_chain}
use border.Chain.Reorg.Laws.{IsSound}
use border.Chain.Steps.{Reach}
use border.Network.Peer.{Peer, PeerState}
use border.Network.Gossip.{Envelope, Router, receive}
use border.Network.Gossip.Seen.{receive_once, receive_all}
use border.Network.Gossip.Hops.{Travels, Spends, Travels-Spends}
use border.Network.Server.{served}
use border.Network.Sync.{Foreign, Answers, agrees, find_fork, sync_from, sync_pass, best_peer}
use border.Network.Sync.Fork.{
  IsLast, find_fork-IsLast, find_fork_found, find_fork_ends, counted_fork,
}
use border.Network.Sync.Download.{IsTyped, StartsAt, sync_pass-IsSound, sync_from_behind_fork}
use border.Network.Sync.CatchUp.{extend, sync_pass_catches_up}
use border.Samples.{toy, ready, made, made-is_valid}

-- Our chain of two blocks.
abbrev two : Chain
two = accept_block made ready

abbrev serving : List Block → Answers
serving bs = record {
  fetch_block_hash = λ i. elim (get_elem? bs i) [ none ↦ none | some b ↦ some b.block_hash ];
  fetch_blocks = λ s e. map to_dict (take (e + 1 - s) (drop s bs));
}

-- A peer that shares the first block only, and serves its second block.
abbrev forked : Answers
forked = record {
  fetch_block_hash = λ i. elim i [ zero ↦ block_hash_at 0 two | suc j ↦ none ];
  fetch_blocks = λ s e. if s == 1 then to_dict made ∷ [] else [];
}

abbrev tall : Peer
tall = record {
  host = "a";
  port = 1;
  node_id = "";
  chain_height = 1;
  version = "";
  state = PeerState.connected;
  last_seen = 0;
  fail_count = 0;
}

agreed-zero : (n : ℕ) → agrees forked two n ≡ true → n ≡ 0
unfolding agrees
agreed-zero zero h = refl
agreed-zero (suc n) h = cc

forked-prefix : (i j : ℕ) → i ≤ j → agrees forked two j ≡ true → agrees forked two i ≡ true
forked-prefix i j le h =
    let e : j ≡ i = omega (arith, agreed-zero j h) in subst (λ k. agrees forked two k ≡ true) (e) h

forked-first : agrees forked two 0 ≡ true
unfolding agrees block_hash_at genesis accept_block compute_hash
forked-first = refl

find_fork-IsLast_example : IsLast (agrees forked two) 1 (find_fork forked 1 1 two)
find_fork-IsLast_example = find_fork-IsLast forked 1 1 two (omega arith) forked-first forked-prefix

find_fork_ends_example :
    ((counted_fork forked 1 1 two).0 ≡ find_fork forked 1 1 two)
    × ((counted_fork forked 1 1 two).1 ≤ 2)
find_fork_ends_example = find_fork_ends forked 1 1 two 1 (omega arith)

forked-zero : find_fork forked 1 1 two ≡ 0
forked-zero = elim (find_fork_found forked 1 1 two).1 [ inl e ↦ e | inr e ↦ agreed-zero _ e ]

forked-below : find_fork forked (height two) 1 two < height two
unfolding accept_block
forked-below = omega (arith, forked-zero)

-- A program that stops at a foreign value.
abbrev stops : Foreign
stops d c = (false, c)

made-is_read : from_dict (to_dict made) ≡ read made
made-is_read = block_from_dict-to_dict made

forked-asked : (start stop : ℕ) → StartsAt start (forked.fetch_blocks start stop)
unfolding finalize unsealed_block
forked-asked start stop = elim (Bool-cases (start == 1)) [
  | inl same ↦ rw (same, made-is_read) (ground (arith, same))
  | inr other ↦ rw other tt
]

sync_from_behind_fork_example : sync_from toy stops forked (height two) 1 two ≡ two
sync_from_behind_fork_example =
    sync_from_behind_fork toy stops forked 1 two forked-asked forked-below

made-IsTyped : IsTyped (to_dict made)
made-IsTyped e = cc (sym made-is_read ∙ e)

forked-IsTyped : (start stop : ℕ) → All IsTyped (forked.fetch_blocks start stop)
forked-IsTyped start stop = elim (Bool-cases (start == 1)) [
  | inl same ↦ rw same (made-IsTyped, tt)
  | inr other ↦ rw other tt
]

sync_pass-IsSound_example :
    Reach toy (sync_pass toy stops (λ p. forked) (tall ∷ []) (initial_chain toy))
    × IsSound toy (sync_pass toy stops (λ p. forked) (tall ∷ []) (initial_chain toy))
sync_pass-IsSound_example =
    sync_pass-IsSound toy stops (λ p. forked) (tall ∷ []) (initial_chain toy)
      (λ p start stop. forked-IsTyped start stop) Reach.start

named : (latest_block ready).block_hash ≢ ""
unfolding genesis compute_hash
named e = absurd (ground (arith, e, eq_iff "h" ""))

two-is_longer : blocks two ≡ blocks ready ++ made ∷ []
unfolding accept_block
two-is_longer = refl

sync_pass_catches_up_example :
    (sync_pass toy stops (λ p. served two) (tall ∷ []) ready ≡ extend (made ∷ []) ready)
    × (blocks (extend (made ∷ []) ready) ≡ blocks ready ++ made ∷ [])
unfolding best_peer
sync_pass_catches_up_example =
    sync_pass_catches_up toy stops (λ p. served two) tall [] (made ∷ []) ready two refl
      two-is_longer refl named (made-is_valid, tt)

abbrev fresh_router : Router ℕ
fresh_router = record { handlers = []; seen = []; state = 0 }

abbrev letter : Envelope
letter = record { msg_id = "m"; msg_type = "block"; ttl = 8; payload = end }

abbrev forged : Envelope
forged = record letter { msg_type = "proof" }

abbrev after_forged : Router ℕ
after_forged = (receive forged fresh_router).router

receive_once_example :
    receive letter after_forged ≡ record { fresh = false; sent = none; router = after_forged }
unfolding receive_all
receive_once_example =
    receive_once forged letter [] fresh_router refl (omega arith) refl after_forged refl

passed : (receive letter fresh_router).sent ≡ some (record letter { ttl = 7 })
unfolding receive
passed = refl

Travels-Spends_example : Spends letter 1 (record letter { ttl = 7 })
Travels-Spends_example = Travels-Spends (Travels.passed_on fresh_router Travels.originated passed)

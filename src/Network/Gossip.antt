-- ===== src/Network/Gossip.antt =====
-- border/p2p/gossip.py: the cache of the messages seen, and what a node does with an envelope.
pub mod Seen
pub mod Hops
use border.Prelude.{
  ℕ, ◌-◌, String, Bool, true, false, Option, none, some, List, [], ◌∷◌, ◌++◌, length, ltb,
  if◌then◌else◌,
}
use border.Prelude.Dict.{Dict, get_or, put, contains}
use border.Runtime.{Runtime, Fields, end, field, Json, text, object}

abbrev pub seen_cache_max : ℕ
seen_cache_max = 2048

abbrev pub msg_ttl : ℕ
msg_ttl = 8

pub record Envelope : Type 0 where
  pub msg_id : String
  pub msg_type : String
  pub ttl : ℕ
  pub payload : Fields

-- A handler changes the state `S` of the node that registered it; one that raises leaves the state
-- it had reached.
abbrev pub Handler : Type 0 → Type 0
Handler S = Fields → S → S

-- `_seen` is kept as the list of its keys, in the order of their insertion. The times that it holds
-- are never read.
pub record Router (S : Type 0) : Type 0 where
  pub handlers : Dict (List (Handler S))
  pub seen : List String
  pub state : S

-- `while len(self._seen) > SEEN_CACHE_MAX: self._seen.popitem(last=False)`
unfoldable pub trim : ℕ → List String → List String
trim most [] = []
trim most (x ∷ xs) = let rest = trim most xs in if ltb most (length (x ∷ xs)) then rest else x ∷ xs

-- An id that is there keeps its place.
unfoldable pub mark_seen : String → List String → List String
mark_seen id seen = trim seen_cache_max (if contains id seen then seen else seen ++ id ∷ [])

unfoldable pub run_handlers : {S : Type 0} → List (Handler S) → Fields → S → S
run_handlers [] payload s = s
run_handlers (h ∷ hs) payload s = run_handlers hs payload (h payload s)

-- The envelope that goes to the peers, if any does.
abbrev pub forwarded : Envelope → Option Envelope
forwarded e = if ltb 1 e.ttl then some (record e { ttl = e.ttl - 1 }) else none

-- What `receive` returns, what it sends, and the router after it.
pub record Received (S : Type 0) : Type 0 where
  pub fresh : Bool
  pub sent : Option Envelope
  pub router : Router S

module _ {S : Type 0} where
  -- `on`
  unfoldable pub on_message : String → Handler S → Router S → Router S
  on_message msg_type handler r = record r {
    handlers = put msg_type (get_or msg_type [] r.handlers ++ handler ∷ []) r.handlers;
  }

  unfoldable pub receive : Envelope → Router S → Received S
  receive e r =
      if contains e.msg_id r.seen
      then record { fresh = false; sent = none; router = r }
      else record {
        fresh = true;
        sent = forwarded e;
        router = record r {
          seen = mark_seen e.msg_id r.seen;
          state = run_handlers (get_or e.msg_type [] r.handlers) e.payload r.state;
        };
      }

  -- `make_id` stands for the digest of the type and the payload, cut to 24 characters.
  unfoldable pub broadcast :
      (String → Fields → String) → String → Fields → ℕ → Router S → Envelope × Router S
  broadcast make_id msg_type payload ttl r =
      let id = make_id msg_type payload in
      (
        record { msg_id = id; msg_type = msg_type; ttl = ttl; payload = payload },
        record r { seen = mark_seen id r.seen },
      )

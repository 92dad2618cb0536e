-- ===== src/Network/Peer.antt =====
-- border/p2p/peer.py: what a node knows of a remote peer.
use border.Prelude.{ℕ, ◌+◌, String, Bool, true, false, leb, if◌then◌else◌}
use border.Runtime.{int, text, Fields, end, field, find_or}
use border.Decoding.{Decoded, read, required, as_int, as_text, ◌>>=◌}

pub data PeerState : Type 0 where
  unknown connected disconnected banned : PeerState

-- The latency and the time of the last ping are only shown, and are left out.
pub record Peer : Type 0 where
  pub host : String
  pub port : ℕ
  pub node_id : String
  pub chain_height : ℕ
  pub version : String
  pub state : PeerState
  pub last_seen : ℕ
  pub fail_count : ℕ

unfoldable pub touch : ℕ → Peer → Peer
touch now p = record p { last_seen = now; state = connected; fail_count = 0 }

unfoldable pub mark_failure : ℕ → Peer → Peer
mark_failure ban_after p = record p {
  fail_count = p.fail_count + 1;
  state = if leb ban_after (p.fail_count + 1) then banned else disconnected;
}

unfoldable pub is_reachable : Peer → Bool
is_reachable p = elim p.state [ banned ↦ false | _ ↦ true ]

unfoldable pub to_dict : Peer → Fields
to_dict p = field "host" (text p.host) (
    field "port" (int p.port)
      (field "node_id" (text p.node_id) (field "version" (text p.version) end)))

-- `now` is the time that `last_seen` defaults to.
unfoldable pub from_dict : ℕ → Fields → Decoded Peer
from_dict now d = do
  host ← required "host" d >>= as_text
  port ← required "port" d >>= as_int
  node_id ← as_text (find_or "node_id" (text "") d)
  version ← as_text (find_or "version" (text "0.1.0") d)
  read record {
    host = host;
    port = port;
    node_id = node_id;
    chain_height = 0;
    version = version;
    state = unknown;
    last_seen = now;
    fail_count = 0;
  }

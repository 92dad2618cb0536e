-- ===== src/Network/Server.antt =====
-- The two handlers of border/p2p/server.py that the synchronisation asks.
use border.Prelude.{ℕ, ◌+◌, Option, String, List, map}
use border.Runtime.{Fields}
use border.Block.{to_dict}
use border.Chain.{Chain, block_hash_at, blocks_range}
use border.Network.Sync.{Answers, min}

-- `/p2p/block_hash`; an index out of range is a 404, which is nothing to the one who asks.
unfoldable pub block_hash : Chain → ℕ → Option String
unfolding block_hash_at
block_hash c index = block_hash_at index c

-- `/p2p/blocks`, at most 201 blocks at once
unfoldable pub serve_blocks : Chain → ℕ → ℕ → List Fields
unfolding blocks_range to_dict
serve_blocks c start end = map to_dict (blocks_range start (min end (start + 200)) c)

-- What a peer with the chain `c` answers.
unfoldable pub served : Chain → Answers
unfolding block_hash serve_blocks
served c = record { fetch_block_hash = block_hash c; fetch_blocks = serve_blocks c }

-- ===== src/Network.antt =====
-- border/p2p: the peers, the gossip of blocks and transactions, and the synchronisation of the chain.
pub mod Peer
pub mod Gossip
pub mod Sync
pub mod Server
mod Tests

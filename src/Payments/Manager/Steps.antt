-- ===== src/Payments/Manager/Steps.antt =====
-- The calls of one manager over time, each with its guards inside.
use border.Prelude.{ℕ, String, ◌≡◌, none, []}
use border.Prelude.Int.{ℤ}
use border.Prelude.Dict.{get}
use border.Runtime.{Runtime}
use border.Wallet.{Wallet}
use border.Chain.{Chain}
use border.Prelude.{Option}
use border.Payments.{Receipt}
use border.Payments.Manager.{Manager, open_channel, send, receive, close, settle}

abbrev pub empty_manager : Option Chain → Manager
empty_manager chain = record {
  chain = chain;
  channels = [];
  latest_receipt = [];
  receipt_log = [];
  received_nonces = [];
}

-- A channel id is fresh, as `uuid4` makes it.
pub data Step (rt : Runtime) (m : Manager) : Manager → Type 0 where
  opens :
      (channel_id : String) (now : ℕ) (wallet : Wallet) (receiver : String) (deposit : ℤ) (ttl : ℕ)
      → get channel_id m.channels ≡ none
      → Step rt m (open_channel channel_id now wallet receiver deposit ttl m).2
  sends :
      (receipt_id : String) (now : ℕ) (channel_id : String) (increment : ℤ) (wallet : Wallet)
      (memo : String)
      → Step rt m (send rt receipt_id now channel_id increment wallet memo m).2
  receives :
      (r : Receipt) (wallet : Wallet) (key : String) → Step rt m (receive rt r wallet key m).2
  closes :
      (now : ℕ) (channel_id : String) (wallet : Wallet)
      → Step rt m (close now channel_id wallet m).1
  settles :
      (now : ℕ) (channel_id : String) (wallet : Wallet)
      → Step rt m (settle now channel_id wallet m).1

-- The managers that a sequence of calls leads to.
pub data Reach (rt : Runtime) (chain : Option Chain) : Manager → Type 0 where
  start : Reach rt chain (empty_manager chain)
  next : {m m' : Manager} → Reach rt chain m → Step rt m m' → Reach rt chain m'

-- The managers that further calls lead to.
pub data Later (rt : Runtime) (m : Manager) : Manager → Type 0 where
  now : Later rt m m
  after : {m' m'' : Manager} → Later rt m m' → Step rt m' m'' → Later rt m m''

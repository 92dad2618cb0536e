-- ===== src/Payments/Manager.antt =====
-- border/payments/manager.py: `ChannelManager`. A call returns what it reports and the manager that
-- it leaves. A receipt is a value: a receiver works on the copy that `from_dict` gave it.
pub mod Steps
pub mod Changes
pub mod Funds
pub mod Replay
pub mod Advance
pub mod Pay
use Prim.Native.Nat.{max}
use border.Prelude.{
  ℕ, ◌+◌, String, Bool, true, false, not, ◌||◌, Option, none, some, List, [], ◌∷◌, ◌++◌, keep,
  str_eq, leb, if◌then◌else◌,
}
use border.Prelude.Int.{ℤ, pos, ◌+ℤ◌, ◌-ℤ◌, leb_ℤ, ltb_ℤ}
use border.Prelude.Dict.{Dict, get, put, get_or, values}
use border.Runtime.{Runtime}
use border.Wallet.{Wallet}
use border.Chain.{Chain, get_balance, get_staked}
use border.Payments.{
  ChannelState, open_, closing, closed, is_open, Channel, create_channel, balance_receiver,
  is_active, Receipt, create_receipt, sign_as_sender, verify_sender, ack_as_receiver,
}

pub record Manager : Type 0 where
  pub chain : Option Chain
  pub channels : Dict Channel
  pub latest_receipt : Dict Receipt
  pub receipt_log : Dict (List Receipt)
  pub received_nonces : Dict ℕ

-- What a call reports. `type_error` is the TypeError of `Transaction.create`, which has no parameter
-- `private_key`.
pub data Reply : Type 0 where
  ok ok_stateless closed_zero_payment type_error : Reply
  deposit_not_positive increment_not_positive : Reply
  insufficient_balance : ℤ → ℤ → Reply
  unknown_channel : String → Reply
  channel_is : ChannelState → Reply
  not_the_sender not_the_receiver not_a_party only_sender sender_mismatch : Reply
  exceeds_deposit : ℤ → ℤ → Reply
  stale : ℕ → ℕ → Reply
  bad_signature : Reply

-- 0.01 BC
abbrev pub open_fee : ℤ
open_fee = pos 1_000_000

abbrev pub with_channel : Channel → Manager → Manager
with_channel channel m = record m {
  channels = put channel.channel_id channel m.channels;
  receipt_log = put channel.channel_id [] m.receipt_log;
  received_nonces = put channel.channel_id 0 m.received_nonces;
}

-- The part of `open_channel` behind the first test. With a chain it ends in a refusal or at the call
-- of `Transaction.create`.
unfoldable pub open_on :
    Option Chain → String → ℤ → Channel → Manager → Reply × Option Channel × Manager
open_on none sender deposit channel m = (ok, some channel, with_channel channel m)
open_on (some c) sender deposit channel m =
    let available = get_balance sender c -ℤ get_staked sender c in
    if ltb_ℤ available (deposit +ℤ open_fee)
    then (insufficient_balance available (deposit +ℤ open_fee), none, m)
    else (type_error, none, m)

unfoldable pub open_channel :
    (channel_id : String) (now : ℕ)
    → Wallet
    → String
    → ℤ
    → ℕ
    → Manager
    → Reply × Option Channel × Manager
open_channel channel_id now wallet receiver deposit ttl m =
    if leb_ℤ deposit (pos 0)
    then (deposit_not_positive, none, m)
    else open_on m.chain wallet.address deposit
        (create_channel channel_id now wallet.address receiver deposit ttl) m

-- A receipt enters the log, whose entry is there since the channel was opened.
abbrev pub logged : Receipt → Dict (List Receipt) → Dict (List Receipt)
logged r log = put r.channel_id (get_or r.channel_id [] log ++ r ∷ []) log

module _ (rt : Runtime) where
  -- The receipt of a payment that passed the tests.
  unfoldable pub paid_receipt : String → ℕ → String → Channel → ℤ → Wallet → String → Receipt
  paid_receipt receipt_id now channel_id ch new_cumulative wallet memo = sign_as_sender rt wallet (
      create_receipt receipt_id now channel_id (ch.nonce + 1) new_cumulative ch.sender_address
        ch.receiver_address memo)

  unfoldable pub send_on :
      String
      → ℕ
      → String
      → ℤ
      → Wallet
      → String
      → Channel
      → Manager
      → Reply × Option Receipt × Manager
  send_on receipt_id now channel_id increment wallet memo ch m =
      let new_cumulative = ch.cumulative_paid +ℤ increment in
      let receipt = paid_receipt receipt_id now channel_id ch new_cumulative wallet memo in
      if not (is_active now ch)
      then (channel_is ch.state, none, m)
      else if not (str_eq ch.sender_address wallet.address)
      then (not_the_sender, none, m)
      else if leb_ℤ increment (pos 0)
      then (increment_not_positive, none, m)
      else if ltb_ℤ ch.deposited new_cumulative
      then (exceeds_deposit new_cumulative ch.deposited, none, m)
      else (
        ok,
        some receipt,
        record m {
          channels =
              put channel_id (record ch { nonce = ch.nonce + 1; cumulative_paid = new_cumulative })
                m.channels;
          latest_receipt = put channel_id receipt m.latest_receipt;
          receipt_log = logged receipt m.receipt_log;
        },
      )

  unfoldable pub send :
      (receipt_id : String) (now : ℕ)
      → String
      → ℤ
      → Wallet
      → String
      → Manager
      → Reply × Option Receipt × Manager
  send receipt_id now channel_id increment wallet memo m = elim (get channel_id m.channels) [
    | none ↦ (unknown_channel channel_id, none, m)
    | some ch ↦ send_on receipt_id now channel_id increment wallet memo ch m
  ]

  unfoldable pub receive_on :
      Receipt → Wallet → String → Channel → Manager → Reply × Receipt × Manager
  receive_on r wallet sender_public_key ch m =
      let last_recv = get_or r.channel_id 0 m.received_nonces in
      let acked = ack_as_receiver rt wallet r in
      if leb r.nonce last_recv
      then (stale r.nonce last_recv, r, m)
      else if not (verify_sender rt sender_public_key r)
      then (bad_signature, r, m)
      else if ltb_ℤ ch.deposited r.amount
      then (exceeds_deposit r.amount ch.deposited, r, m)
      else if not (str_eq r.sender_address ch.sender_address)
      then (sender_mismatch, r, m)
      else if not (str_eq wallet.address ch.receiver_address)
      then (not_the_receiver, r, m)
      else (
        ok,
        acked,
        record m {
          received_nonces = put r.channel_id r.nonce m.received_nonces;
          channels =
              put r.channel_id
                (record ch { nonce = max ch.nonce r.nonce; cumulative_paid = r.amount }) m.channels;
          latest_receipt = put r.channel_id acked m.latest_receipt;
          receipt_log = logged acked m.receipt_log;
        },
      )

  unfoldable pub receive : Receipt → Wallet → String → Manager → Reply × Receipt × Manager
  receive r wallet sender_public_key m = elim (get r.channel_id m.channels) [
    | none ↦
        if verify_sender rt sender_public_key r
        then (ok_stateless, ack_as_receiver rt wallet r, m)
        else (bad_signature, r, m)
    | some ch ↦ receive_on r wallet sender_public_key ch m
  ]

unfoldable pub close_on : ℕ → String → Wallet → Channel → Manager → Reply × Manager
close_on now channel_id wallet ch m =
    if not (is_open ch.state)
    then (channel_is ch.state, m)
    else if not
        (str_eq wallet.address ch.sender_address || str_eq wallet.address ch.receiver_address)
    then (not_a_party, m)
    else (
      ok,
      record m {
        channels = put channel_id (record ch { state = closing; closed_at = now }) m.channels;
      },
    )

unfoldable pub close : (now : ℕ) → String → Wallet → Manager → Reply × Manager
close now channel_id wallet m = elim (get channel_id m.channels) [
  | none ↦ (unknown_channel channel_id, m)
  | some ch ↦ close_on now channel_id wallet ch m
]

-- `ch.state in (ChannelState.CLOSING, ChannelState.OPEN)`
abbrev pub can_settle : ChannelState → Bool
can_settle open_ = true
can_settle closing = true
can_settle _ = false

-- With a chain and a payment, `settle` ends at the call of `Transaction.create`.
abbrev pub must_pay : Option Chain → Channel → Bool
must_pay none ch = false
must_pay (some c) ch = ltb_ℤ (pos 0) (balance_receiver ch)

unfoldable pub settle_on : ℕ → String → Wallet → Channel → Manager → Reply × Manager
settle_on now channel_id wallet ch m =
    if not (can_settle ch.state)
    then (channel_is ch.state, m)
    else if not (str_eq wallet.address ch.sender_address)
    then (only_sender, m)
    else if must_pay m.chain ch
    then (type_error, m)
    else (
      closed_zero_payment,
      record m {
        channels = put channel_id (record ch { state = closed; closed_at = now }) m.channels;
      },
    )

unfoldable pub settle : (now : ℕ) → String → Wallet → Manager → Reply × Manager
settle now channel_id wallet m = elim (get channel_id m.channels) [
  | none ↦ (unknown_channel channel_id, m)
  | some ch ↦ settle_on now channel_id wallet ch m
]

unfoldable pub channels_for : String → Manager → List Channel
channels_for address m =
    keep (λ ch. str_eq address ch.sender_address || str_eq address ch.receiver_address)
      (values m.channels)

unfoldable pub receipt_history : String → Manager → List Receipt
receipt_history channel_id m = get_or channel_id [] m.receipt_log

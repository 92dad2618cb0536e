-- ===== src/Payments.antt =====
-- border/payments/channel.py and border/payments/receipt.py: the payment channel and the signed
-- receipt of an off-chain payment.
pub mod Manager
pub mod Codec
mod Tests
use Prim.Native.String.{◌++◌}
use border.Prelude.{
  ℕ, zero, ◌+◌, String, Bool, true, false, not, ◌&&◌, Option, none, some, List, ltb, if◌then◌else◌,
}
use border.Prelude.Int.{ℤ, pos, ◌-ℤ◌, min_ℤ, max_ℤ}
use border.Runtime.{Runtime, Json, int, coins, seconds, text, Fields, end, field, find_or}
use border.Decoding.{}
use border.Wallet.{Wallet, sign, verify}
use border.Transaction.{is_empty}

pub data ChannelState : Type 0 where
  open_ closing closed disputed : ChannelState

abbrev pub is_open : ChannelState → Bool
is_open open_ = true
is_open _ = false

pub record Channel : Type 0 where
  pub channel_id : String
  pub sender_address : String
  pub receiver_address : String
  pub deposited : ℤ
  pub nonce : ℕ
  pub cumulative_paid : ℤ
  pub state : ChannelState
  pub opened_at : ℕ
  pub expires_at : ℕ
  pub closed_at : ℕ

-- `PaymentChannel.create`, with the fresh id and the clock. A `ttl_seconds` below zero counts as 0.
unfoldable pub create_channel : (channel_id : String) (now : ℕ) → String → String → ℤ → ℕ → Channel
create_channel channel_id now sender_address receiver_address deposited ttl_seconds = record {
  channel_id = channel_id;
  sender_address = sender_address;
  receiver_address = receiver_address;
  deposited = deposited;
  nonce = 0;
  cumulative_paid = pos 0;
  state = open_;
  opened_at = now;
  expires_at = if ltb 0 ttl_seconds then now + ttl_seconds else 0;
  closed_at = 0;
}

unfoldable pub balance_receiver : Channel → ℤ
balance_receiver ch = min_ℤ ch.cumulative_paid ch.deposited

unfoldable pub balance_sender : Channel → ℤ
balance_sender ch = max_ℤ (ch.deposited -ℤ ch.cumulative_paid) (pos 0)

abbrev pub is_expired : ℕ → Channel → Bool
is_expired now ch = ltb 0 ch.expires_at && ltb ch.expires_at now

unfoldable pub is_active : ℕ → Channel → Bool
is_active now ch = is_open ch.state && not (is_expired now ch)

pub record Receipt : Type 0 where
  pub receipt_id : String
  pub channel_id : String
  pub nonce : ℕ
  pub amount : ℤ
  pub sender_address : String
  pub receiver_address : String
  pub sender_signature : String
  pub ack_signature : String
  pub created_at : ℕ
  pub memo : String

-- `PaymentReceipt.create`, with the fresh id and the clock.
unfoldable pub create_receipt :
    (receipt_id : String) (now : ℕ) → String → ℕ → ℤ → String → String → String → Receipt
create_receipt receipt_id now channel_id nonce amount sender_address receiver_address memo =
    record {
      receipt_id = receipt_id;
      channel_id = channel_id;
      nonce = nonce;
      amount = amount;
      sender_address = sender_address;
      receiver_address = receiver_address;
      sender_signature = "";
      ack_signature = "";
      created_at = now;
      memo = memo;
    }

module _ (rt : Runtime) where
  -- `_receipt_signing_bytes`
  unfoldable pub signing_bytes : Receipt → List ℕ
  signing_bytes r =
      rt.encode (r.channel_id ++ ":" ++ rt.show_int r.nonce ++ ":" ++ rt.show_coins_8 r.amount)

  unfoldable pub sign_as_sender : Wallet → Receipt → Receipt
  sign_as_sender wallet r = record r { sender_signature = sign rt wallet (signing_bytes r) }

  unfoldable pub ack_as_receiver : Wallet → Receipt → Receipt
  ack_as_receiver wallet r = record r { ack_signature = sign rt wallet (signing_bytes r) }

  unfoldable pub verify_sender : String → Receipt → Bool
  verify_sender sender_public_key r =
      if is_empty r.sender_signature
      then false
      else verify rt sender_public_key (signing_bytes r) r.sender_signature

  unfoldable pub verify_ack : String → Receipt → Bool
  verify_ack receiver_public_key r =
      if is_empty r.ack_signature
      then false
      else verify rt receiver_public_key (signing_bytes r) r.ack_signature

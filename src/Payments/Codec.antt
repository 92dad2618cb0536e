-- ===== src/Payments/Codec.antt =====
-- The dictionaries of channels and receipts.
use border.Prelude.{String, ◌≡◌, refl, str_eq, if◌then◌else◌}
use border.Prelude.Int.{pos}
use border.Runtime.{int, coins, seconds, text, Fields, end, field, find_or}
use border.Decoding.{Decoded, raised, read, required, as_int, as_coins, as_seconds, as_text, ◌>>=◌}
use border.Decoding.{Decoded, read, required, as_int, as_coins, as_seconds, as_text, ◌>>=◌}
use border.Payments.{ChannelState, open_, closing, closed, disputed, Channel, Receipt}

-- `state.value`
abbrev pub value : ChannelState → String
value open_ = "open"
value closing = "closing"
value closed = "closed"
value disputed = "disputed"

-- `ChannelState(s)`, `raised` for the ValueError
unfoldable pub state_of : String → Decoded ChannelState
state_of s =
    if str_eq s "open"
    then read open_
    else if str_eq s "closing"
    then read closing
    else if str_eq s "closed"
    then read closed
    else if str_eq s "disputed"
    then read disputed
    else raised

unfoldable pub channel_to_dict : Channel → Fields
channel_to_dict ch = field "channel_id" (text ch.channel_id) (
    field "sender_address" (text ch.sender_address) (
      field "receiver_address" (text ch.receiver_address) (
        field "deposited" (coins ch.deposited) (
          field "nonce" (int ch.nonce) (
            field "cumulative_paid" (coins ch.cumulative_paid) (
              field "state" (text (value ch.state)) (
                field "opened_at" (seconds ch.opened_at) (
                  field "expires_at" (seconds ch.expires_at)
                    (field "closed_at" (seconds ch.closed_at) end)))))))))

unfoldable pub channel_from_dict : Fields → Decoded Channel
channel_from_dict d = do
  channel_id ← required "channel_id" d >>= as_text
  sender_address ← required "sender_address" d >>= as_text
  receiver_address ← required "receiver_address" d >>= as_text
  deposited ← required "deposited" d >>= as_coins
  nonce ← as_int (find_or "nonce" (int 0) d)
  cumulative_paid ← as_coins (find_or "cumulative_paid" (coins (pos 0)) d)
  state ← as_text (find_or "state" (text "open") d) >>= state_of
  opened_at ← as_seconds (find_or "opened_at" (seconds 0) d)
  expires_at ← as_seconds (find_or "expires_at" (seconds 0) d)
  closed_at ← as_seconds (find_or "closed_at" (seconds 0) d)
  read (record {
    channel_id = channel_id;
    sender_address = sender_address;
    receiver_address = receiver_address;
    deposited = deposited;
    nonce = nonce;
    cumulative_paid = cumulative_paid;
    state = state;
    opened_at = opened_at;
    expires_at = expires_at;
    closed_at = closed_at;
  })

unfoldable pub receipt_to_dict : Receipt → Fields
receipt_to_dict r = field "receipt_id" (text r.receipt_id) (
    field "channel_id" (text r.channel_id) (
      field "nonce" (int r.nonce) (
        field "amount" (coins r.amount) (
          field "sender_address" (text r.sender_address) (
            field "receiver_address" (text r.receiver_address) (
              field "sender_signature" (text r.sender_signature) (
                field "ack_signature" (text r.ack_signature) (
                  field "created_at" (seconds r.created_at) (field "memo" (text r.memo) end)))))))))

unfoldable pub receipt_from_dict : Fields → Decoded Receipt
receipt_from_dict d = do
  receipt_id ← required "receipt_id" d >>= as_text
  channel_id ← required "channel_id" d >>= as_text
  nonce ← required "nonce" d >>= as_int
  amount ← required "amount" d >>= as_coins
  sender_address ← required "sender_address" d >>= as_text
  receiver_address ← required "receiver_address" d >>= as_text
  sender_signature ← as_text (find_or "sender_signature" (text "") d)
  ack_signature ← as_text (find_or "ack_signature" (text "") d)
  created_at ← as_seconds (find_or "created_at" (seconds 0) d)
  memo ← as_text (find_or "memo" (text "") d)
  read (record {
    receipt_id = receipt_id;
    channel_id = channel_id;
    nonce = nonce;
    amount = amount;
    sender_address = sender_address;
    receiver_address = receiver_address;
    sender_signature = sender_signature;
    ack_signature = ack_signature;
    created_at = created_at;
    memo = memo;
  })

state_of-value : (s : ChannelState) → state_of (value s) ≡ read s
unfolding state_of
state_of-value open_ = refl
state_of-value closing = refl
state_of-value closed = refl
state_of-value disputed = refl

-- Decoding gives back every channel that was encoded, its state included.
pub channel_from_dict-to_dict : (ch : Channel) → channel_from_dict (channel_to_dict ch) ≡ read ch
unfolding channel_from_dict channel_to_dict
channel_from_dict-to_dict ch = rw (state_of-value ch.state)

receipt_from_dict-to_dict : (r : Receipt) → receipt_from_dict (receipt_to_dict r) ≡ read r
unfolding receipt_from_dict receipt_to_dict
receipt_from_dict-to_dict r = refl

-- ===== src/Payments/Tests.antt =====
-- The theorems on payments at concrete channels.
use border.Prelude.{ℕ, ◌≡◌, ◌≤◌, ◌≢◌, refl, none, some, [], ◌∷◌, arith}
use border.Prelude.Int.{pos, ◌+ℤ◌}
use border.Prelude.Dict.{get, get_or}
use border.Wallet.{Wallet, sign, verify}
use border.Decoding.{read}
use border.Payments.{
  Channel, Receipt, open_, closed, balance_receiver, balance_sender, create_receipt, is_active,
  verify_sender, sign_as_sender,
}
use border.Payments.Codec.{channel_from_dict, channel_to_dict, channel_from_dict-to_dict}
use border.Payments.Manager.{
  Manager, ok, stale, open_channel, send, send_on, paid_receipt, receive, receive_on, close,
}
use border.Payments.Manager.Steps.{Step, Reach, Later, empty_manager}
use border.Payments.Manager.Funds.{balances_add_up, AreFunded, Reach-AreFunded}
use border.Payments.Manager.Advance.{Advances, Step-Advances}
use border.Payments.Manager.Replay.{receive_no_replay}
use border.Payments.Manager.Pay.{open_channel_with_chain, receive_ignores_state, send_then_receive}
use border.Samples.{toy, ready}

abbrev payer : Wallet
payer = record { private_key = []; address = "BC_h"; public_key_b64 = "k" }

abbrev payee : Wallet
payee = record { private_key = []; address = "BC_b"; public_key_b64 = "k" }

abbrev line : Channel
line = record {
  channel_id = "c1";
  sender_address = "BC_h";
  receiver_address = "BC_b";
  deposited = pos 100;
  nonce = 0;
  cumulative_paid = pos 0;
  state = open_;
  opened_at = 1;
  expires_at = 0;
  closed_at = 0;
}

abbrev holding : Manager
holding = record {
  chain = none;
  channels = ("c1", line) ∷ [];
  latest_receipt = [];
  receipt_log = ("c1", []) ∷ [];
  received_nonces = ("c1", 0) ∷ [];
}

abbrev receipt : Receipt
receipt = paid_receipt toy "r1" 2 "c1" line (pos 0 +ℤ pos 30) payer "relay"

balances_add_up_example : balance_receiver line +ℤ balance_sender line ≡ pos 100
balances_add_up_example = balances_add_up line

Reach-AreFunded_example :
    AreFunded (open_channel "c1" 1 payer "BC_b" (pos 100) 0 (empty_manager none)).2
Reach-AreFunded_example =
    Reach-AreFunded {rt = toy} {chain = none}
      (Reach.next Reach.start (Step.opens "c1" 1 payer "BC_b" (pos 100) 0 (unfold get in refl)))

Step-Advances_example :
    (ch' : Channel) × (get "c1" (close 3 "c1" payer holding).1.channels ≡ some ch')
    × Advances line ch'
Step-Advances_example =
    Step-Advances {rt = toy} (Step.closes 3 "c1" payer) "c1" line (unfold get in refl)

receipt-is_accepted : (receive toy receipt payee "k" holding).0 ≡ ok
unfolding receive receive_on get get_or paid_receipt sign_as_sender create_receipt verify_sender
    verify sign ◌+ℤ◌
receipt-is_accepted = refl

abbrev received : Manager
received = (receive toy receipt payee "k" holding).2

receive_no_replay_example :
    (n : ℕ) × (receipt.nonce ≤ n)
    × (receive toy receipt payee "k" (close 9 "c1" payer received).1
        ≡ (stale receipt.nonce n, receipt, (close 9 "c1" payer received).1))
receive_no_replay_example =
    receive_no_replay toy receipt payee "k" holding (close 9 "c1" payer received).1
      receipt-is_accepted (Later.after Later.now (Step.closes 9 "c1" payer)) receipt payee "k" refl
      (omega arith)

send_then_receive_example : (receive toy receipt payee "k" holding).0 ≡ ok
unfolding send send_on get is_active ◌+ℤ◌
send_then_receive_example =
    send_then_receive toy "r1" 2 "c1" (pos 30) payer "relay" holding line refl refl holding payee
      "k" refl (unfold get_or in omega arith) refl (λ message. unfold sign in refl)
      (λ message. unfold verify in refl)

open_channel_with_chain_example :
    ((open_channel "c1" 1 payer "BC_b" (pos 100) 0 (empty_manager (some ready))).0 ≢ ok)
    × ((open_channel "c1" 1 payer "BC_b" (pos 100) 0 (empty_manager (some ready))).2
        ≡ empty_manager (some ready))
open_channel_with_chain_example =
    open_channel_with_chain "c1" 1 payer "BC_b" (pos 100) 0 (empty_manager (some ready)) ready refl

receive_ignores_state_example :
    (receive_on toy receipt payee "k" (record line { state = closed }) holding).0
    ≡ (receive_on toy receipt payee "k" line holding).0
receive_ignores_state_example = receive_ignores_state toy receipt payee "k" holding line closed

channel_from_dict-to_dict_example : channel_from_dict (channel_to_dict line) ≡ read line
channel_from_dict-to_dict_example = channel_from_dict-to_dict line

-- ===== src/Payments/Manager/Pay.antt =====
-- A payment from end to end, and what a manager with a chain can do.
use border.Prelude.{
  ℕ, String, ◌≡◌, ◌≢◌, refl, ◌≤◌, ◌<◌, ap, sym, ◌∙◌, subst, true, false, some, List, arith, str_eq,
  eq_iff,
}
use border.Prelude.Int.{ℤ, ◌+ℤ◌, ◌≤ℤ◌}
use border.Prelude.Dict.{get, get_or}
use border.Runtime.{Runtime}
use border.Wallet.{Wallet, sign, verify}
use border.Transaction.{is_empty}
use border.Chain.{Chain}
use border.Payments.{
  ChannelState, Channel, Receipt, create_receipt, signing_bytes, sign_as_sender, verify_sender,
}
use border.Payments.Manager.{
  Manager, ok, open_on, open_channel, paid_receipt, send_on, send, receive_on, receive,
}
use border.Payments.Manager.Changes.{send-found, receive-found}

-- With a chain, `open_channel` does not report that a channel is open, and the manager is as
-- before.
pub open_channel_with_chain :
    (id : String) (now : ℕ) (w : Wallet) (receiver : String) (deposit : ℤ) (ttl : ℕ) (m : Manager)
    (c : Chain)
    → m.chain ≡ some c
    → ((open_channel id now w receiver deposit ttl m).0 ≢ ok)
      × ((open_channel id now w receiver deposit ttl m).2 ≡ m)
unfolding open_channel open_on
open_channel_with_chain id now w receiver deposit ttl m c e = (λ h. ground arith, ground arith)

module _ (rt : Runtime) where
  -- `receive` does not look at the state: it accepts for a closed channel what it accepts for an
  -- open one.
  pub receive_ignores_state :
      (r : Receipt) (w : Wallet) (key : String) (m : Manager) (ch : Channel) (s : ChannelState)
      → (receive_on rt r w key (record ch { state = s }) m).0 ≡ (receive_on rt r w key ch m).0
  unfolding receive_on
  receive_ignores_state r w key m ch s = ground arith

  paid_receipt_verifies :
      (rid : String) (now : ℕ) (id : String) (ch : Channel) (total : ℤ) (w : Wallet)
      (memo key : String)
      → ((message : List ℕ) → is_empty (sign rt w message) ≡ false)
      → ((message : List ℕ) → verify rt key message (sign rt w message) ≡ true)
      → verify_sender rt key (paid_receipt rt rid now id ch total w memo) ≡ true
  unfolding verify_sender paid_receipt sign_as_sender create_receipt signing_bytes
  paid_receipt_verifies rid now id ch total w memo key written passes = rw (written, passes) refl

  send_on-ok :
      (rid : String) (now : ℕ) (id : String) (x : ℤ) (w : Wallet) (memo : String) (ch : Channel)
      (m : Manager) {r : Receipt} {m' : Manager}
      → send_on rt rid now id x w memo ch m ≡ (ok, some r, m')
      → (r ≡ paid_receipt rt rid now id ch (ch.cumulative_paid +ℤ x) w memo)
        × (ch.cumulative_paid +ℤ x ≤ℤ ch.deposited)
  unfolding send_on
  send_on-ok rid now id x w memo ch m h = ground arith

  receive_on-ok :
      (r : Receipt) (v : Wallet) (key : String) (ch : Channel) (n : Manager)
      → get_or r.channel_id 0 n.received_nonces < r.nonce
      → verify_sender rt key r ≡ true
      → r.amount ≤ℤ ch.deposited
      → r.sender_address ≡ ch.sender_address
      → v.address ≡ ch.receiver_address
      → (receive_on rt r v key ch n).0 ≡ ok
  unfolding receive_on
  receive_on-ok r v key ch n newer signed within sent mine =
      let sent_is : str_eq r.sender_address ch.sender_address ≡ true =
        (eq_iff r.sender_address ch.sender_address).1 sent in
      let mine_is : str_eq v.address ch.receiver_address ≡ true =
        (eq_iff v.address ch.receiver_address).1 mine in
      ground arith

  -- A receipt that `send` made is accepted by a receiver who holds the same channel, has not seen a
  -- nonce above the channel's and has the address of its receiver, given that the sender's
  -- signatures are not empty and pass the check of the key.
  pub send_then_receive :
      (rid : String) (now : ℕ) (id : String) (x : ℤ) (w : Wallet) (memo : String) (m : Manager)
      (ch : Channel) {r : Receipt} {m' : Manager}
      → send rt rid now id x w memo m ≡ (ok, some r, m')
      → get id m.channels ≡ some ch
      → (n : Manager) (v : Wallet) (key : String) → get id n.channels ≡ some ch
      → get_or id 0 n.received_nonces ≤ ch.nonce
      → v.address ≡ ch.receiver_address
      → ((message : List ℕ) → is_empty (sign rt w message) ≡ false)
      → ((message : List ℕ) → verify rt key message (sign rt w message) ≡ true)
      → (receive rt r v key n).0 ≡ ok
  send_then_receive rid now id x w memo m ch sent at n v key at' old mine written passes =
      let (is, within) =
        send_on-ok rid now id x w memo ch m (sym (send-found rt rid now id x w memo m at) ∙ sent) in
      let made = paid_receipt rt rid now id ch (ch.cumulative_paid +ℤ x) w memo in
      let signed =
        paid_receipt_verifies rid now id ch (ch.cumulative_paid +ℤ x) w memo key written passes in
      subst (λ r. (receive rt r v key n).0 ≡ ok) (sym is)
        (unfold paid_receipt sign_as_sender create_receipt in
          (ap (λ x. x.0) (receive-found rt made v key n at')
            ∙ receive_on-ok made v key ch n (omega arith) signed within refl mine))

-- ===== src/Payments/Manager/Changes.antt =====
-- What one call of border/payments/manager.py does to the channels.
use Prim.Native.Nat.{max}
use border.Prelude.{
  ℕ, ◌+◌, String, ◌≡◌, refl, true, ap, ◌∙◌, none, some, arith, ◌⊎◌, Option-cases, inl, inr,
}
use border.Prelude.Int.{ℤ, pos, ◌+ℤ◌, ◌≤ℤ◌, ◌<ℤ◌}
use border.Prelude.Dict.{get, put}
use border.Runtime.{Runtime}
use border.Wallet.{Wallet}
use border.Payments.{
  ChannelState, open_, closing, closed, disputed, is_open, Channel, Receipt, create_channel,
}
use border.Payments.Manager.{
  Manager, open_on, open_channel, send_on, send, receive_on, receive, close_on, close, settle_on,
  settle, can_settle,
}
use border.Payments.Manager.Steps.{Step}

-- The changes of the state that a call makes.
pub data Moves : ChannelState → ChannelState → Type 0 where
  begins_closing : Moves open_ closing
  closes_at_once : Moves open_ closed
  is_settled : Moves closing closed

pub data Change (m m' : Manager) : Type 0 where
  kept : m'.channels ≡ m.channels → Change m m'
  opened :
      (ch : Channel)
      → get ch.channel_id m.channels ≡ none
      → pos 0 <ℤ ch.deposited
      → ch.cumulative_paid ≡ pos 0
      → m'.channels ≡ put ch.channel_id ch m.channels
      → Change m m'
  paid :
      (id : String) (ch : Channel) (n : ℕ) (total : ℤ)
      → get id m.channels ≡ some ch
      → total ≤ℤ ch.deposited
      → m'.channels ≡ put id (record ch { nonce = n; cumulative_paid = total }) m.channels
      → Change m m'
  moved :
      (id : String) (ch : Channel) (s : ChannelState) (now : ℕ)
      → get id m.channels ≡ some ch
      → Moves ch.state s
      → m'.channels ≡ put id (record ch { state = s; closed_at = now }) m.channels
      → Change m m'

module _ (rt : Runtime) where
  send_on_channels :
      (rid : String) (now : ℕ) (id : String) (x : ℤ) (w : Wallet) (memo : String) (ch : Channel)
      (m : Manager)
      → ((send_on rt rid now id x w memo ch m).2.channels ≡ m.channels)
        ⊎ ((ch.cumulative_paid +ℤ x ≤ℤ ch.deposited)
            × ((send_on rt rid now id x w memo ch m).2.channels
                ≡ put id
                    (record ch { nonce = ch.nonce + 1; cumulative_paid = ch.cumulative_paid +ℤ x })
                    m.channels))
  unfolding send_on
  send_on_channels rid now id x w memo ch m = ground arith

  receive_on_channels :
      (r : Receipt) (w : Wallet) (key : String) (ch : Channel) (m : Manager)
      → ((receive_on rt r w key ch m).2.channels ≡ m.channels)
        ⊎ ((r.amount ≤ℤ ch.deposited)
            × ((receive_on rt r w key ch m).2.channels
                ≡ put r.channel_id
                    (record ch { nonce = max ch.nonce r.nonce; cumulative_paid = r.amount })
                    m.channels))
  unfolding receive_on
  receive_on_channels r w key ch m = ground arith

may_close : (s : ChannelState) → is_open s ≡ true → Moves s closing
may_close open_ h = begins_closing
may_close closing h = absurd (cc h)
may_close closed h = absurd (cc h)
may_close disputed h = absurd (cc h)

may_settle : (s : ChannelState) → can_settle s ≡ true → Moves s closed
may_settle open_ h = closes_at_once
may_settle closing h = is_settled
may_settle closed h = absurd (cc h)
may_settle disputed h = absurd (cc h)

close_on_channels :
    (now : ℕ) (id : String) (w : Wallet) (ch : Channel) (m : Manager)
    → ((close_on now id w ch m).1.channels ≡ m.channels)
      ⊎ (Moves ch.state closing
          × ((close_on now id w ch m).1.channels
              ≡ put id (record ch { state = closing; closed_at = now }) m.channels))
unfolding close_on
close_on_channels now id w ch m = ground (arith, may_close ch.state)

settle_on_channels :
    (now : ℕ) (id : String) (w : Wallet) (ch : Channel) (m : Manager)
    → ((settle_on now id w ch m).1.channels ≡ m.channels)
      ⊎ (Moves ch.state closed
          × ((settle_on now id w ch m).1.channels
              ≡ put id (record ch { state = closed; closed_at = now }) m.channels))
unfolding settle_on
settle_on_channels now id w ch m = ground (arith, may_settle ch.state)

open_channel_channels :
    (id : String) (now : ℕ) (w : Wallet) (receiver : String) (deposit : ℤ) (ttl : ℕ) (m : Manager)
    → let ch = create_channel id now w.address receiver deposit ttl in
      ((open_channel id now w receiver deposit ttl m).2.channels ≡ m.channels)
      ⊎ ((pos 0 <ℤ deposit)
          × ((open_channel id now w receiver deposit ttl m).2.channels ≡ put id ch m.channels))
unfolding open_channel open_on create_channel
open_channel_channels id now w receiver deposit ttl m = ground arith

-- The channels after a call that looks a channel up.
looked_up :
    {m m' : Manager} (id : String)
    → (get id m.channels ≡ none → m'.channels ≡ m.channels)
    → ((ch : Channel) → get id m.channels ≡ some ch → Change m m')
    → Change m m'
looked_up {m} id gone there = elim (Option-cases (get id m.channels)) [
  | inl e ↦ kept (gone e)
  | inr (ch, e) ↦ there ch e
]

-- A call for a channel that is there, and one for a channel that is not.
module _ (rt : Runtime) where
  pub send-found :
      (rid : String) (now : ℕ) (id : String) (x : ℤ) (w : Wallet) (memo : String) (m : Manager)
      {ch : Channel}
      → get id m.channels ≡ some ch
      → send rt rid now id x w memo m ≡ send_on rt rid now id x w memo ch m
  unfolding send
  send-found rid now id x w memo m e = rw (e, send) refl

  send-missing :
      (rid : String) (now : ℕ) (id : String) (x : ℤ) (w : Wallet) (memo : String) (m : Manager)
      → get id m.channels ≡ none
      → (send rt rid now id x w memo m).2 ≡ m
  unfolding send
  send-missing rid now id x w memo m e = rw (e, send) refl

  pub receive-found :
      (r : Receipt) (w : Wallet) (key : String) (m : Manager) {ch : Channel}
      → get r.channel_id m.channels ≡ some ch
      → receive rt r w key m ≡ receive_on rt r w key ch m
  unfolding receive
  receive-found r w key m e = rw (e, receive) refl

  pub receive-missing :
      (r : Receipt) (w : Wallet) (key : String) (m : Manager)
      → get r.channel_id m.channels ≡ none
      → (receive rt r w key m).2 ≡ m
  unfolding receive
  receive-missing r w key m e = ground arith

close-found :
    (now : ℕ) (id : String) (w : Wallet) (m : Manager) {ch : Channel}
    → get id m.channels ≡ some ch
    → close now id w m ≡ close_on now id w ch m
unfolding close
close-found now id w m e = rw (e, close) refl

close-missing :
    (now : ℕ) (id : String) (w : Wallet) (m : Manager)
    → get id m.channels ≡ none
    → (close now id w m).1 ≡ m
unfolding close
close-missing now id w m e = rw (e, close) refl

settle-found :
    (now : ℕ) (id : String) (w : Wallet) (m : Manager) {ch : Channel}
    → get id m.channels ≡ some ch
    → settle now id w m ≡ settle_on now id w ch m
unfolding settle
settle-found now id w m e = rw (e, settle) refl

settle-missing :
    (now : ℕ) (id : String) (w : Wallet) (m : Manager)
    → get id m.channels ≡ none
    → (settle now id w m).1 ≡ m
unfolding settle
settle-missing now id w m e = rw (e, settle) refl

pub Step-Change : {rt : Runtime} {m m' : Manager} → Step rt m m' → Change m m'
unfolding create_channel
Step-Change {rt} {m} (Step.opens id now w receiver deposit ttl fresh) =
    elim (open_channel_channels id now w receiver deposit ttl m) [
      | inl e ↦ kept e
      | inr (p, e) ↦ opened (create_channel id now w.address receiver deposit ttl) fresh p refl e
    ]
Step-Change {rt} {m} (Step.sends rid now id x w memo) =
    looked_up id (λ e. ap (λ m. m.channels) (send-missing rt rid now id x w memo m e))
      (λ ch e.
        let found = ap (λ r. r.2.channels) (send-found rt rid now id x w memo m e) in
        elim (send_on_channels rt rid now id x w memo ch m) [
          | inl k ↦ kept (found ∙ k)
          | inr (p, k) ↦ paid id ch (ch.nonce + 1) (ch.cumulative_paid +ℤ x) e p (found ∙ k)
        ])
Step-Change {rt} {m} (Step.receives r w key) =
    looked_up r.channel_id (λ e. ap (λ m. m.channels) (receive-missing rt r w key m e))
      (λ ch e.
        let found = ap (λ r. r.2.channels) (receive-found rt r w key m e) in
        elim (receive_on_channels rt r w key ch m) [
          | inl k ↦ kept (found ∙ k)
          | inr (p, k) ↦ paid r.channel_id ch (max ch.nonce r.nonce) r.amount e p (found ∙ k)
        ])
Step-Change {rt} {m} (Step.closes now id w) =
    looked_up id (λ e. ap (λ m. m.channels) (close-missing now id w m e))
      (λ ch e.
        let found = ap (λ r. r.1.channels) (close-found now id w m e) in
        elim (close_on_channels now id w ch m) [
          | inl k ↦ kept (found ∙ k)
          | inr (p, k) ↦ moved id ch closing now e p (found ∙ k)
        ])
Step-Change {rt} {m} (Step.settles now id w) =
    looked_up id (λ e. ap (λ m. m.channels) (settle-missing now id w m e))
      (λ ch e.
        let found = ap (λ r. r.1.channels) (settle-found now id w m e) in
        elim (settle_on_channels now id w ch m) [
          | inl k ↦ kept (found ∙ k)
          | inr (p, k) ↦ moved id ch closed now e p (found ∙ k)
        ])

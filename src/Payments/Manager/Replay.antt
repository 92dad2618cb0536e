-- ===== src/Payments/Manager/Replay.antt =====
-- Receipts that `receive` of border/payments/manager.py has accepted.
use Prim.Native.Nat.{max}
use border.Prelude.{
  ℕ, String, ◌≡◌, ◌≢◌, refl, ◌≤◌, ◌<◌, ap, sym, ◌∙◌, subst, true, false, none, some, arith,
  Bool-cases, Option-cases, inl, inr, str_eq, eq_iff,
}
use border.Prelude.Int.{ℤ, ◌≤ℤ◌}
use border.Prelude.Dict.{get, put, get_or, get-put, get_or-put}
use border.Runtime.{Runtime}
use border.Wallet.{Wallet}
use border.Payments.{Channel, Receipt, create_channel}
use border.Payments.Manager.{
  Manager, ok, stale, receive_on, receive, open_on, open_channel, send_on, send, close_on, close,
  settle_on, settle,
}
use border.Payments.Manager.Steps.{Step, Later}
use border.Payments.Manager.Advance.{Step-Advances}
use border.Payments.Manager.Changes.{receive-found}

-- What an accepted receipt satisfies, and what it leaves.
pub record Accepted (rt : Runtime) (r : Receipt) (m m' : Manager) (ch : Channel) : Type 0 where
  pub found : get r.channel_id m.channels ≡ some ch
  pub newer : get_or r.channel_id 0 m.received_nonces < r.nonce
  pub within : r.amount ≤ℤ ch.deposited
  pub channels :
      m'.channels
      ≡ put r.channel_id
          (record ch { nonce = max ch.nonce r.nonce; cumulative_paid = r.amount })
          m.channels
  pub nonces : m'.received_nonces ≡ put r.channel_id r.nonce m.received_nonces

le_of_eq : {a b : ℕ} → a ≡ b → a ≤ b
le_of_eq h = omega arith

module _ (rt : Runtime) where
  not_stateless :
      (r : Receipt) (w : Wallet) (key : String) (m : Manager)
      → get r.channel_id m.channels ≡ none
      → (receive rt r w key m).0 ≢ ok
  unfolding receive
  not_stateless r w key m e h = ground arith

  receive_on-Accepted :
      (r : Receipt) (w : Wallet) (key : String) (m : Manager) (ch : Channel)
      → get r.channel_id m.channels ≡ some ch
      → (receive_on rt r w key ch m).0 ≡ ok
      → Accepted rt r m (receive_on rt r w key ch m).2 ch
  unfolding receive_on
  receive_on-Accepted r w key m ch e h = ground arith

  pub receive-Accepted :
      (r : Receipt) (w : Wallet) (key : String) (m : Manager)
      → (receive rt r w key m).0 ≡ ok
      → (ch : Channel) × Accepted rt r m (receive rt r w key m).2 ch
  receive-Accepted r w key m h = elim (Option-cases (get r.channel_id m.channels)) [
    | inl e ↦ absurd (not_stateless r w key m e h)
    | inr (ch, e) ↦
        let found = receive-found rt r w key m e in
        (
          ch,
          subst (λ x. Accepted rt r m x.2 ch) (sym found)
              (receive_on-Accepted r w key m ch e (ap (λ x. x.0) (sym found) ∙ h)),
        )
  ]

  stale_on :
      (r : Receipt) (w : Wallet) (key : String) (m : Manager) (ch : Channel) (n : ℕ)
      → get_or r.channel_id 0 m.received_nonces ≡ n
      → r.nonce ≤ n
      → receive_on rt r w key ch m ≡ (stale r.nonce n, r, m)
  unfolding receive_on
  stale_on r w key m ch n e h = ground arith

  receive_nonce :
      (r : Receipt) (w : Wallet) (key : String) (m : Manager) (id : String)
      → get_or id 0 m.received_nonces ≤ get_or id 0 (receive rt r w key m).2.received_nonces
  unfolding receive receive_on
  receive_nonce r w key m id = ground (
    arith,
    get_or-put r.channel_id id 0 r.nonce m.received_nonces,
    ap (λ k. get_or k 0 m.received_nonces),
    eq_iff r.channel_id id,
  )

  open_nonce :
      (i : String) (now : ℕ) (w : Wallet) (receiver : String) (deposit : ℤ) (ttl : ℕ) (m : Manager)
      (id : String)
      → str_eq i id ≡ false
      → get_or id 0 (open_channel i now w receiver deposit ttl m).2.received_nonces
        ≡ get_or id 0 m.received_nonces
  unfolding open_channel open_on create_channel
  open_nonce i now w receiver deposit ttl m id other =
      ground (arith, get_or-put i id 0 0 m.received_nonces)

  fresh_other :
      (i id : String) (ch : Channel) (m : Manager)
      → get i m.channels ≡ none
      → get id m.channels ≡ some ch
      → str_eq i id ≡ false
  fresh_other i id ch m fresh found = elim (Bool-cases (str_eq i id)) [
    | inl e ↦ absurd (cc (sym fresh ∙ ap (λ k. get k m.channels) ((eq_iff i id).0 e) ∙ found))
    | inr e ↦ e
  ]

  -- No call lowers the last nonce of a channel that is there.
  Step-nonce :
      {m m' : Manager} (id : String) (ch : Channel)
      → get id m.channels ≡ some ch
      → Step rt m m'
      → get_or id 0 m.received_nonces ≤ get_or id 0 m'.received_nonces
  unfolding send send_on close close_on settle settle_on
  Step-nonce {m} id ch found (Step.opens i now w receiver deposit ttl fresh) =
      le_of_eq
        (sym (open_nonce i now w receiver deposit ttl m id (fresh_other i id ch m fresh found)))
  Step-nonce {m} id ch found (Step.sends rid now i x w memo) = ground arith
  Step-nonce {m} id ch found (Step.receives r w key) = receive_nonce r w key m id
  Step-nonce {m} id ch found (Step.closes now i w) = ground arith
  Step-nonce {m} id ch found (Step.settles now i w) = ground arith

  -- A channel that is there with a last nonce, and what further calls leave of both.
  record Holds (id : String) (n : ℕ) (m : Manager) : Type 0 where
    channel : Channel
    found : get id m.channels ≡ some channel
    last : n ≤ get_or id 0 m.received_nonces

  Later-Holds :
      (id : String) (n : ℕ) {m m' : Manager} → Later rt m m' → Holds id n m → Holds id n m'
  Later-Holds id n Later.now h = h
  Later-Holds id n (Later.after l s) h =
      let before = Later-Holds id n l h in
      let (ch, at, a) = Step-Advances s id before.channel before.found in
      record {
        channel = ch;
        found = at;
        last = omega (arith, Step-nonce id before.channel before.found s, before.last);
      }

  receive-Holds :
      (r : Receipt) (w : Wallet) (key : String) (m : Manager)
      → (receive rt r w key m).0 ≡ ok
      → Holds r.channel_id r.nonce (receive rt r w key m).2
  receive-Holds r w key m h =
      let (ch, a) = receive-Accepted r w key m h in
      let is : str_eq r.channel_id r.channel_id ≡ true =
        (eq_iff r.channel_id r.channel_id).1 refl in
      record {
        channel = record ch { nonce = max ch.nonce r.nonce; cumulative_paid = r.amount };
        found =
            ap (get r.channel_id) a.channels
            ∙ get-put r.channel_id r.channel_id _ m.channels
            ∙ rw is refl;
        last = le_of_eq (
            sym (
              ap (get_or r.channel_id 0) a.nonces
              ∙ get_or-put r.channel_id r.channel_id 0 r.nonce m.received_nonces
              ∙ rw is refl));
      }

  -- `receive` answered "ok" to a receipt, whose channel it therefore knew. Then, after any further
  -- calls of the manager, it answers that a receipt of the same channel with no higher nonce is
  -- stale, with any wallet and key, and changes nothing.
  pub receive_no_replay :
      (r : Receipt) (w : Wallet) (key : String) (m m' : Manager)
      → (receive rt r w key m).0 ≡ ok
      → Later rt (receive rt r w key m).2 m'
      → (r' : Receipt) (w' : Wallet) (key' : String) → r.channel_id ≡ r'.channel_id
      → r'.nonce ≤ r.nonce
      → (n : ℕ) × (r.nonce ≤ n) × (receive rt r' w' key' m' ≡ (stale r'.nonce n, r', m'))
  receive_no_replay r w key m m' h later r' w' key' same older =
      let held = Later-Holds r.channel_id r.nonce later (receive-Holds r w key m h) in
      let found : get r'.channel_id m'.channels ≡ some held.channel =
        ap (λ i. get i m'.channels) (sym same) ∙ held.found in
      let last : r.nonce ≤ get_or r'.channel_id 0 m'.received_nonces =
        subst (λ i. r.nonce ≤ get_or i 0 m'.received_nonces) same held.last in
      (
        get_or r'.channel_id 0 m'.received_nonces,
        last,
        receive-found rt r' w' key' m' found
            ∙ stale_on r' w' key' m' held.channel (get_or r'.channel_id 0 m'.received_nonces) refl
                (omega (arith, older, last)),
      )

-- ===== src/Payments/Manager/Funds.antt =====
-- The deposits and payments of border/payments/manager.py.
use border.Prelude.{String, ◌≡◌, sym, ap, ◌∙◌, Option, some}
use border.Prelude.Int.{pos, ◌+ℤ◌, ◌≤ℤ◌, ◌<ℤ◌, int_laws}
use border.Prelude.Dict.{get, put_keeps}
use border.Runtime.{Runtime}
use border.Chain.{Chain}
use border.Payments.{Channel, balance_receiver, balance_sender}
use border.Payments.Manager.{Manager}
use border.Payments.Manager.Steps.{Reach}
use border.Payments.Manager.Changes.{Change, kept, opened, paid, moved, Step-Change}

-- Whatever is paid, the balances of the two parties add up to the deposit.
pub balances_add_up : (ch : Channel) → balance_receiver ch +ℤ balance_sender ch ≡ ch.deposited
unfolding balance_receiver balance_sender
balances_add_up ch = grind int_laws

pub record IsFunded (ch : Channel) : Type 0 where
  pub backed : pos 0 <ℤ ch.deposited
  pub within : ch.cumulative_paid ≤ℤ ch.deposited

pub record AreFunded (m : Manager) : Type 0 where
  pub each : (id : String) (ch : Channel) → get id m.channels ≡ some ch → IsFunded ch

Change-AreFunded : {m m' : Manager} → Change m m' → AreFunded m → AreFunded m'
Change-AreFunded (kept e) h = record { each = λ j w g. h.each j w (ap (get j) (sym e) ∙ g) }
Change-AreFunded {m} (opened ch fresh p zero e) h = record {
  each = λ j w g.
      put_keeps IsFunded ch.channel_id ch m.channels
        (record { backed = p; within = grind int_laws }) h.each j w (ap (get j) (sym e) ∙ g);
}
Change-AreFunded {m} (paid id ch n total at p e) h = record {
  each = λ j w g.
      put_keeps IsFunded id _ m.channels (record { backed = (h.each id ch at).backed; within = p })
        h.each j w (ap (get j) (sym e) ∙ g);
}
Change-AreFunded {m} (moved id ch s now at p e) h = record {
  each = λ j w g.
      put_keeps IsFunded id _ m.channels
        (record { backed = (h.each id ch at).backed; within = (h.each id ch at).within }) h.each j w
        (ap (get j) (sym e) ∙ g);
}

-- In a manager that calls have led to, every channel has a deposit above zero, and what is paid over
-- it does not exceed the deposit.
pub Reach-AreFunded :
    {rt : Runtime} {chain : Option Chain} {m : Manager} → Reach rt chain m → AreFunded m
unfolding get
Reach-AreFunded Reach.start = record { each = λ j w g. cc }
Reach-AreFunded (Reach.next r s) = Change-AreFunded (Step-Change s) (Reach-AreFunded r)

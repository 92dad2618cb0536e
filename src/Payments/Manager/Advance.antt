-- ===== src/Payments/Manager/Advance.antt =====
-- The states of a channel under the calls of border/payments/manager.py.
use mathlib.Core.Option.{some-injective}
use border.Prelude.{
  String, ◌≡◌, refl, sym, ap, subst, ◌∙◌, none, some, ◌⊎◌, Bool-cases, inl, inr, str_eq, eq_iff,
}
use border.Prelude.Dict.{Dict, get, put, get-put}
use border.Runtime.{Runtime}
use border.Payments.{Channel}
use border.Payments.Manager.{Manager}
use border.Payments.Manager.Steps.{Step}
use border.Payments.Manager.Changes.{Change, kept, opened, paid, moved, Step-Change, Moves}

-- A channel and what a call made of it.
pub record Advances (ch ch' : Channel) : Type 0 where
  pub sender : ch'.sender_address ≡ ch.sender_address
  pub receiver : ch'.receiver_address ≡ ch.receiver_address
  pub deposit : ch'.deposited ≡ ch.deposited
  -- The state and the time of the last change of it stay, or the state moves on.
  pub further : ((ch'.state ≡ ch.state) × (ch'.closed_at ≡ ch.closed_at)) ⊎ Moves ch.state ch'.state

same : (ch : Channel) → Advances ch ch
same ch = record { sender = refl; receiver = refl; deposit = refl; further = inl (refl, refl) }

put-Advances :
    (d : Dict Channel) (id j : String) (ch new w : Channel)
    → get id d ≡ some ch
    → Advances ch new
    → get j d ≡ some w
    → (w' : Channel) × (get j (put id new d) ≡ some w') × Advances w w'
put-Advances d id j ch new w at a g = elim (Bool-cases (str_eq id j)) [
  | inl e ↦ (
    new,
    get-put id j new d ∙ rw (e) refl,
    subst (λ c. Advances c new)
        (some-injective ch w (sym at ∙ ap (λ k. get k d) ((eq_iff id j).0 e) ∙ g)) a,
  )
  | inr e ↦ (w, get-put id j new d ∙ rw (e) g, same w)
]

Change-Advances :
    {m m' : Manager} (id : String) (ch : Channel)
    → Change m m'
    → get id m.channels ≡ some ch
    → (ch' : Channel) × (get id m'.channels ≡ some ch') × Advances ch ch'
Change-Advances id ch (kept e) g = (ch, ap (get id) e ∙ g, same ch)
Change-Advances {m} id ch (opened new fresh p zero e) g =
    elim (Bool-cases (str_eq new.channel_id id)) [
      | inl q ↦
          let none-is : get id m.channels ≡ none =
            ap (λ k. get k m.channels) (sym ((eq_iff new.channel_id id).0 q)) ∙ fresh in
          cc
      | inr q ↦ (ch, ap (get id) e ∙ get-put new.channel_id id new m.channels ∙ rw (q) g, same ch)
    ]
Change-Advances {m} id ch (paid i old n total at p e) g =
    let (ch', at', a) =
      put-Advances m.channels i id old (record old { nonce = n; cumulative_paid = total }) ch at
        (record { sender = refl; receiver = refl; deposit = refl; further = inl (refl, refl) }) g in
    (ch', ap (get id) e ∙ at', a)
Change-Advances {m} id ch (moved i old s now at p e) g =
    let (ch', at', a) =
      put-Advances m.channels i id old (record old { state = s; closed_at = now }) ch at
        (record { sender = refl; receiver = refl; deposit = refl; further = inr p }) g in
    (ch', ap (get id) e ∙ at', a)

-- After any call, a channel is still there with the same parties and the same deposit. Either its
-- state and `closed_at` are the same, or its state went from open to closing or closed, or from
-- closing to closed.
pub Step-Advances :
    {rt : Runtime} {m m' : Manager}
    → Step rt m m'
    → (id : String) (ch : Channel) → get id m.channels ≡ some ch
    → (ch' : Channel) × (get id m'.channels ≡ some ch') × Advances ch ch'
Step-Advances s id ch g = Change-Advances id ch (Step-Change s) g

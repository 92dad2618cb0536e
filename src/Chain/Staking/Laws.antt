-- ===== src/Chain/Staking/Laws.antt =====
-- Stakes and slashes, on every branch.
use border.Prelude.{ℕ, String, ◌≡◌, ◌≢◌, refl, Option, none, some, ◌++◌, [], ◌∷◌, eq_iff, arith}
use border.Prelude.Int.{ℤ, pos, ◌+ℤ◌, ◌-ℤ◌, ◌≤ℤ◌, min_ℤ, int_laws}
use border.Prelude.Dict.{get, get-put, get-remove}
use border.Runtime.{Runtime}
use border.Chain.{Chain, Stake, get_balance, get_staked}
use border.Chain.Staking.{
  Reply, unknown_role, staked, released, slashed, stake_minimum, stake, stake_checked, unstake,
  slash,
}

-- The three facts about an accepted stake, for the tests of a known role.
module _ (minimum : ℤ) (a : String) (amount : ℤ) (role : String) (now : ℕ) (c : Chain) where
  abbrev Staked : Reply × Chain → Type 0
  Staked (reply, c') =
      reply ≡ staked
      → (get_staked a c' ≡ get_staked a c +ℤ amount)
        × ((j : String) → j ≢ a → get_staked j c' ≡ get_staked j c)
        × (get_staked a c' ≤ℤ get_balance a c')

  stake_checked_adds : Staked (stake_checked minimum a amount role now c)
  unfolding stake_checked get_staked get_balance
  stake_checked_adds h = (
    grind (int_laws, get-put, eq_iff),
    λ j ne. grind (int_laws, get-put, eq_iff),
    grind (int_laws, get-put, eq_iff),
  )

-- A call that stakes adds its amount to the stake of the address, leaves the stake of every other
-- address, and leaves no more staked than the balance of the address.
pub stake_adds :
    (rt : Runtime) (a : String) (amount : ℤ) (role : String) (now : ℕ) (c : Chain)
    → (stake rt a amount role now c).0 ≡ staked
    → let c' = (stake rt a amount role now c).1 in
      (get_staked a c' ≡ get_staked a c +ℤ amount)
      × ((j : String) → j ≢ a → get_staked j c' ≡ get_staked j c)
      × (get_staked a c' ≤ℤ get_balance a c')
unfolding stake
stake_adds rt a amount role now c h = go (stake_minimum (rt.lower role)) h
  where
    go :
        (m : Option ℤ)
        → Staked (pos 0) a amount (rt.lower role) now c (elim m [
          | none ↦ (unknown_role (rt.lower role), c)
          | some minimum ↦ stake_checked minimum a amount (rt.lower role) now c
        ])
    go none h = cc
    go (some minimum) h = stake_checked_adds minimum a amount (rt.lower role) now c h

-- With an amount and a stake that are not negative, a slash takes from the stake exactly what it
-- reports and logs, the smaller of the two, and leaves the stake of every other address.
pub slash_takes :
    (a : String) (amount : ℤ) (reason : String) (now : ℕ) (c : Chain) (entry : Stake)
    → get a c.stakes ≡ some entry
    → pos 0 ≤ℤ amount
    → pos 0 ≤ℤ entry.amount
    → let taken = min_ℤ amount entry.amount in
      let (reply, c') = slash a amount reason now c in
      (reply ≡ slashed taken)
      × (get_staked a c' +ℤ taken ≡ entry.amount)
      × (pos 0 ≤ℤ get_staked a c')
      × ((j : String) → j ≢ a → get_staked j c' ≡ get_staked j c)
      × (c'.slash_log
          ≡ c.slash_log
            ++ record { address = a; amount = taken; reason = reason; timestamp = now } ∷ [])
unfolding slash get_staked
slash_takes a amount reason now c entry e pa pe =
    rw (e, slash)
      (
        refl,
        grind (int_laws, get-put, get-remove, eq_iff),
        grind (int_laws, get-put, get-remove, eq_iff),
        λ j ne. grind (int_laws, get-put, get-remove, eq_iff),
        refl,
      )

-- Releasing a stake leaves nothing staked for the address, and every other stake as it was.
pub unstake_releases :
    (a : String) (c : Chain) (entry : Stake)
    → get a c.stakes ≡ some entry
    → let (reply, c') = unstake a c in
      (reply ≡ released entry.amount)
      × (get_staked a c' ≡ pos 0)
      × ((j : String) → j ≢ a → get_staked j c' ≡ get_staked j c)
unfolding unstake get_staked
unstake_releases a c entry e =
    rw (e, unstake)
      (refl, grind (arith, get-remove, eq_iff), λ j ne. grind (arith, get-remove, eq_iff))

-- With an amount and a stake that are not negative, what a slash takes is not burnt: the balance of the address stays as it is, and what the address
-- can stake anew grows by the amount taken.
pub slash_frees_coins :
    (a : String) (amount : ℤ) (reason : String) (now : ℕ) (c : Chain) (entry : Stake)
    → get a c.stakes ≡ some entry
    → pos 0 ≤ℤ amount
    → pos 0 ≤ℤ entry.amount
    → let c' = (slash a amount reason now c).1 in
      (get_balance a c' ≡ get_balance a c)
      × (get_balance a c' -ℤ get_staked a c'
          ≡ get_balance a c -ℤ get_staked a c +ℤ min_ℤ amount entry.amount)
unfolding slash get_staked get_balance
slash_frees_coins a amount reason now c entry e pa pe =
    rw (e, slash) (refl, grind (int_laws, get-put, get-remove, eq_iff))

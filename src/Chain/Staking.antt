-- ===== src/Chain/Staking.antt =====
-- Staking and slashing.
pub mod Laws
use border.Prelude.{
  ℕ, String, Bool, Option, none, some, List, [], ◌∷◌, ◌++◌, map, str_eq, if◌then◌else◌,
}
use border.Prelude.Int.{ℤ, pos, ◌+ℤ◌, ◌-ℤ◌, leb_ℤ, ltb_ℤ, min_ℤ}
use border.Prelude.Dict.{get, put, remove, values}
use border.Runtime.{Runtime}
use border.Block.{sum_ℤ}
use border.Chain.{Chain, Stake, Slash, get_balance, get_staked}

-- What a call reports; `accepted` is the first part of the pair that it returns.
pub data Reply : Type 0 where
  unknown_role : String → Reply
  too_low : ℤ → ℤ → Reply
  insufficient : ℤ → ℤ → Reply
  staked no_stake nothing_to_slash : Reply
  released : ℤ → Reply
  slashed : ℤ → Reply

-- `STAKE_MINIMUMS.get(role)`
unfoldable pub stake_minimum : String → Option ℤ
stake_minimum role =
    if str_eq role "relay"
    then some (pos 100_000_000)
    else (if str_eq role "compute"
        then some (pos 100_000_000)
        else (if str_eq role "storage"
            then some (pos 200_000_000)
            else (if str_eq role "infer"
                then some (pos 500_000_000)
                else (if str_eq role "render" then some (pos 1_000_000_000) else none))))

-- The entry that a stake leaves: a further stake adds up and keeps its date.
abbrev pub stake_entry : Option Stake → ℤ → String → ℕ → Stake
stake_entry none amount role now = record { amount = amount; role = role; locked_at = now }
stake_entry (some old) amount role now = record {
  amount = old.amount +ℤ amount;
  role = role;
  locked_at = old.locked_at;
}

-- The last two tests and the write of `stake`, for a known role.
unfoldable pub stake_checked : ℤ → String → ℤ → String → ℕ → Chain → Reply × Chain
stake_checked minimum address amount role now c =
    let available = get_balance address c -ℤ get_staked address c in
    if ltb_ℤ amount minimum
    then (too_low minimum amount, c)
    else (if ltb_ℤ available amount then (insufficient available amount, c) else (
      staked,
      record c {
        stakes = put address (stake_entry (get address c.stakes) amount role now) c.stakes;
      },
    ))

unfoldable pub stake : Runtime → String → ℤ → String → ℕ → Chain → Reply × Chain
stake rt address amount role now c = elim (stake_minimum (rt.lower role)) [
  | none ↦ (unknown_role (rt.lower role), c)
  | some minimum ↦ stake_checked minimum address amount (rt.lower role) now c
]

unfoldable pub unstake : String → Chain → Reply × Chain
unstake address c = elim (get address c.stakes) [
  | none ↦ (no_stake, c)
  | some entry ↦ (released entry.amount, record c { stakes = remove address c.stakes })
]

unfoldable pub slash : String → ℤ → String → ℕ → Chain → Reply × Chain
slash address amount reason now c = elim (get address c.stakes) [
  | none ↦ (nothing_to_slash, c)
  | some entry ↦
      let slash_amount = min_ℤ amount entry.amount in
      let left = entry.amount -ℤ slash_amount in
      (
        slashed slash_amount,
        record c {
          stakes =
              if leb_ℤ left (pos 0)
              then remove address c.stakes
              else put address (record entry { amount = left }) c.stakes;
          slash_log =
              c.slash_log
              ++ record {
                address = address;
                amount = slash_amount;
                reason = reason;
                timestamp = now;
              }
                ∷ [];
        },
      )
]

unfoldable pub has_minimum_stake : Runtime → String → String → Chain → Bool
has_minimum_stake rt address role c =
    let minimum : ℤ = elim (stake_minimum (rt.lower role)) [ none ↦ pos 0 | some m ↦ m ] in
    leb_ℤ minimum (get_staked address c)

unfoldable pub total_staked : Chain → ℤ
total_staked c = sum_ℤ (map (λ s. s.amount) (values c.stakes))

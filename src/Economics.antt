-- ===== src/Economics.antt =====
-- border/blockchain/economics.py: the supply schedule, the fee floor and the difficulty retarget.
-- Amounts are in units of 10^-8 BC, times in microseconds.
pub mod Reward
pub mod Difficulty
mod Tests
use Prim.Native.Nat.{min, max}
use mathlib.Core.Logic.{dite}
use mathlib.Core.WellFounded.{Acc, WellFounded}
use border.Prelude.{
  ℕ, zero, suc, ◌+◌, ◌-◌, ◌*◌, ◌/◌, ◌^◌, ◌<◌, Bool, arith, ltb, leb, if◌then◌else◌, dec_lt,
}
use border.Prelude.Int.{ℤ, pos, leb_ℤ, ◌-ℤ◌, max_ℤ}
use border.Prelude.Order.{lt_wf}
use border.Prelude.Round.{round_half_even}

-- One BC in units of 10^-8.
abbrev pub coin : ℕ
coin = 100_000_000

abbrev pub max_supply : ℕ
max_supply = 21_000_000 * coin

abbrev pub initial_block_reward : ℕ
initial_block_reward = 50 * coin

abbrev pub halving_interval : ℕ
halving_interval = 210_000

-- 0.0001 BC
abbrev pub min_fee_per_tx : ℕ
min_fee_per_tx = 10_000

-- 600 s
abbrev pub target_block_time : ℕ
target_block_time = 600_000_000

abbrev pub difficulty_adjustment_interval : ℕ
difficulty_adjustment_interval = 2016

abbrev pub min_difficulty : ℕ
min_difficulty = 1024 * 1024

abbrev pub max_difficulty : ℕ
max_difficulty = 10 * 1024 * 1024 * 1024

abbrev pub retarget_clamp : ℕ
retarget_clamp = 4

-- The reward after a number of halvings: the test is made before the rounding.
halved_reward : ℕ → ℕ
unfolding round_half_even
halved_reward halvings =
    if leb 64 halvings
    then 0
    else (if ltb initial_block_reward (2 ^ halvings)
        then 0
        else round_half_even initial_block_reward (2 ^ halvings))

unfoldable pub block_reward : ℕ → ℕ
unfolding halved_reward
block_reward height = halved_reward (height / halving_interval)

-- The `while` loop of `cumulative_supply` over `total`, `current_reward` and `remaining`.
cumulative_loop : (total current_reward remaining : ℕ) → Acc ◌<◌ remaining → ℕ
unfolding round_half_even dec_lt
cumulative_loop total current_reward remaining (Acc.intro _ smaller) =
    dite (dec_lt 0 remaining)
      (λ h.
        let blocks_in_era = min halving_interval remaining in
        let rest =
          cumulative_loop (total + blocks_in_era * current_reward)
            (round_half_even current_reward 2) (remaining - blocks_in_era)
            (smaller (remaining - blocks_in_era) (omega arith)) in
        if leb 1 current_reward then rest else total)
      (λ _. total)

pub cumulative_supply : ℕ → ℕ
unfolding cumulative_loop lt_wf
cumulative_supply height =
    min (cumulative_loop 0 initial_block_reward (height + 1) (lt_wf.apply (height + 1))) max_supply

unfoldable pub supply_headroom : ℤ → ℤ
supply_headroom current_supply = max_ℤ (pos 0) (pos max_supply -ℤ current_supply)

-- `max(1.0, end - start)` in microseconds: `-` stops at 0, which the maximum hides.
unfoldable pub calculate_next_difficulty : ℕ → ℕ → ℕ → ℕ
calculate_next_difficulty current_difficulty interval_start_ts interval_end_ts =
    let expected_time = difficulty_adjustment_interval * target_block_time in
    let actual_time = max 1_000_000 (interval_end_ts - interval_start_ts) in
    let slow_enough = max actual_time (expected_time / retarget_clamp) in
    let clamped = min slow_enough (expected_time * retarget_clamp) in
    let new_difficulty = current_difficulty * clamped / expected_time in
    max min_difficulty (min max_difficulty new_difficulty)

-- ===== src/Economics/Tests.antt =====
-- The theorems on the schedule and the retarget at concrete heights.
use border.Prelude.{◌≡◌, ◌≤◌, ◌↔◌, ◌*◌, ◌+◌, ◌/◌, arith}
use border.Economics.{
  block_reward, calculate_next_difficulty, min_difficulty, max_difficulty, halving_interval,
  difficulty_adjustment_interval, target_block_time,
}
use border.Economics.Reward.{block_reward_antitone, block_reward-eq-zero_iff}
use border.Economics.Difficulty.{
  calculate_next_difficulty_bounds, calculate_next_difficulty_clamp,
  calculate_next_difficulty_steady, calculate_next_difficulty_monotone,
}

block_reward_antitone_example : block_reward 420_000 ≤ block_reward 209_999
block_reward_antitone_example = block_reward_antitone 209_999 420_000 (omega arith)

block_reward-eq-zero_iff_example :
    (block_reward 6_930_000 ≡ 0) ↔ (33 * halving_interval ≤ 6_930_000)
block_reward-eq-zero_iff_example = block_reward-eq-zero_iff 6_930_000

calculate_next_difficulty_bounds_example :
    (min_difficulty ≤ calculate_next_difficulty 5_000_000 10 20)
    × (calculate_next_difficulty 5_000_000 10 20 ≤ max_difficulty)
calculate_next_difficulty_bounds_example = calculate_next_difficulty_bounds 5_000_000 10 20

calculate_next_difficulty_clamp_example :
    (calculate_next_difficulty 5_000_000 10 20 ≤ 4 * 5_000_000)
    × (5_000_000 / 4 ≤ calculate_next_difficulty 5_000_000 10 20)
calculate_next_difficulty_clamp_example =
    calculate_next_difficulty_clamp 5_000_000 10 20 (omega arith) (omega arith)

calculate_next_difficulty_steady_example :
    calculate_next_difficulty 5_000_000 7 (7 + difficulty_adjustment_interval * target_block_time)
    ≡ 5_000_000
calculate_next_difficulty_steady_example =
    calculate_next_difficulty_steady 5_000_000 7 (omega arith) (omega arith)

calculate_next_difficulty_monotone_example :
    calculate_next_difficulty 5_000_000 0 1_000_000_000_000
    ≤ calculate_next_difficulty 5_000_000 0 2_000_000_000_000
calculate_next_difficulty_monotone_example =
    calculate_next_difficulty_monotone 5_000_000 0 1_000_000_000_000 2_000_000_000_000 (omega arith)

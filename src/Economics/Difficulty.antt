-- ===== src/Economics/Difficulty.antt =====
-- The retarget, `calculate_next_difficulty` of border/blockchain/economics.py.
use Prim.Native.Nat.{min, max}
use native.Mathlib.Nat.{mul-le-mul_left}
use border.Prelude.{ℕ, ◌+◌, ◌-◌, ◌*◌, ◌/◌, ◌≤◌, ◌≡◌, arith}
use border.Economics.{
  calculate_next_difficulty, min_difficulty, max_difficulty, difficulty_adjustment_interval,
  target_block_time,
}

-- Whatever the timestamps are, the result lies between the floor and the ceiling.
pub calculate_next_difficulty_bounds :
    (cd start end : ℕ)
    → (min_difficulty ≤ calculate_next_difficulty cd start end)
      × (calculate_next_difficulty cd start end ≤ max_difficulty)
unfolding calculate_next_difficulty
calculate_next_difficulty_bounds cd start end = omega arith

-- The scaling step, for an interval between a quarter and four times the expected one.
scaled_bounds :
    (cd t : ℕ)
    → 302_400_000_000 ≤ t
    → t ≤ 4_838_400_000_000
    → (cd * t / 1_209_600_000_000 ≤ 4 * cd) × (cd / 4 ≤ cd * t / 1_209_600_000_000)
scaled_bounds cd t lo hi = omega (arith, mul-le-mul_left cd lo, mul-le-mul_left cd hi)

-- From a difficulty within the bounds, the next is at most four times as high and at least a
-- quarter of it, rounded down.
pub calculate_next_difficulty_clamp :
    (cd start end : ℕ)
    → min_difficulty ≤ cd
    → cd ≤ max_difficulty
    → (calculate_next_difficulty cd start end ≤ 4 * cd)
      × (cd / 4 ≤ calculate_next_difficulty cd start end)
unfolding calculate_next_difficulty
calculate_next_difficulty_clamp cd start end lo hi =
    let t = min (max (max 1_000_000 (end - start)) 302_400_000_000) 4_838_400_000_000 in
    omega (arith, scaled_bounds cd t (omega arith) (omega arith))

-- An interval that took exactly the expected time leaves the difficulty as it is.
pub calculate_next_difficulty_steady :
    (cd start : ℕ)
    → min_difficulty ≤ cd
    → cd ≤ max_difficulty
    → calculate_next_difficulty cd start
        (start + difficulty_adjustment_interval * target_block_time)
      ≡ cd
unfolding calculate_next_difficulty
calculate_next_difficulty_steady cd start lo hi = grind arith

-- The later the interval ended, the higher the next difficulty is, or it is the same.
pub calculate_next_difficulty_monotone :
    (cd start end end' : ℕ)
    → end ≤ end'
    → calculate_next_difficulty cd start end ≤ calculate_next_difficulty cd start end'
unfolding calculate_next_difficulty
calculate_next_difficulty_monotone cd start end end' le = grind arith

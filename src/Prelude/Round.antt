-- ===== src/Prelude/Round.antt =====
-- `round(x, 8)` of Python, for x = num / den in units of 10^-8: the nearest whole unit, and the
-- even one of two that are equally near.
use native.Mathlib.Nat.{mul-div_cancel, mul-mod_left, div-add-mod', mod-lt}
use border.Prelude.{◌⊎◌, inl, inr, ℕ, ◌+◌, ◌*◌, ◌/◌, ◌%◌, ◌≤◌, ◌<◌, ◌≡◌, arith, ltb, if◌then◌else◌}

unfoldable pub round_half_even : ℕ → ℕ → ℕ
round_half_even num den =
    let q = num / den in
    let r = num % den in if ltb (2 * r) den then q else if ltb den (2 * r) then q + 1 else q + q % 2

-- A whole number of units is its own rounding.
pub round_half_even_exact : (q den : ℕ) → 0 < den → round_half_even (q * den) den ≡ q
unfolding round_half_even
round_half_even_exact q den h = ground (arith, mul-div_cancel q h, mul-mod_left q den)

-- The result is the floor, or the number after it, whichever is not the farther.
round_cases :
    (num den : ℕ)
    → ((round_half_even num den ≡ num / den) × (2 * (num % den) ≤ den))
      ⊎ ((round_half_even num den ≡ num / den + 1) × (den ≤ 2 * (num % den)))
unfolding round_half_even
round_cases num den = ground arith

-- The result is within half a unit of the exact quotient.
pub round_half_even_near :
    (num den : ℕ)
    → 0 < den
    → (2 * (round_half_even num den * den) ≤ 2 * num + den)
      × (2 * num ≤ 2 * (round_half_even num den * den) + den)
round_half_even_near num den h = elim (round_cases num den) [
  | inl (e, near) ↦ rw e (omega (arith, div-add-mod' num den))
  | inr (e, near) ↦ rw e (omega (arith, div-add-mod' num den, mod-lt num h))
]

-- It is the floor or the number after it.
pub round_half_even-le : (num den : ℕ) → round_half_even num den ≤ num / den + 1
unfolding round_half_even
round_half_even-le num den = ground arith

-- ===== src/Economics/Reward.antt =====
-- The schedule of the block reward, `block_reward` of border/blockchain/economics.py.
use native.Mathlib.Nat.{le_trans, le_refl, zero-add, suc-add, pow-le-pow_right}
use border.Prelude.{
  ℕ, zero, suc, ◌+◌, ◌-◌, ◌/◌, ◌≤◌, ◌<◌, ◌≡◌, refl, Bool, true, ◌&&◌, ◌*◌, ◌↔◌, inl, inr,
  Bool-cases, arith, ltb, leb, leb→le, ltb→lt,
}
use border.Economics.{block_reward, halved_reward, initial_block_reward, halving_interval}

-- A test that passes on each of `count` eras from a first one on.
passes : (test : ℕ → Bool) (first count : ℕ) → Bool
passes test first zero = true
passes test first (suc count) = test first && passes test (suc first) count

passes_at :
    (test : ℕ → Bool) (first count era : ℕ)
    → passes test first count ≡ true
    → first ≤ era
    → era < first + count
    → test era ≡ true
unfolding passes
passes_at test first zero era all from until = absurd (omega arith)
passes_at test first (suc count) era all from until =
    ground (arith, passes_at test (suc first) count era)

halved_reward_falls_table : passes (λ k. leb (halved_reward (suc k)) (halved_reward k)) 0 64 ≡ true
unfolding passes halved_reward
halved_reward_falls_table = refl

halved_reward_late : (k : ℕ) → 33 ≤ k → halved_reward k ≡ 0
unfolding halved_reward
halved_reward_late k h = ground (arith, pow-le-pow_right {n = 2} (omega arith) h)

halved_reward_falls : (k : ℕ) → halved_reward (suc k) ≤ halved_reward k
halved_reward_falls k = elim (Bool-cases (ltb k 64)) [
  | inl early ↦
      leb→le _ _ (passes_at _ 0 64 k halved_reward_falls_table (omega arith) (ground arith))
  | inr late ↦ ground (arith, halved_reward_late (suc k))
]

halved_reward_antitone : (d a : ℕ) → halved_reward (d + a) ≤ halved_reward a
halved_reward_antitone zero a = rw zero-add (le_refl _)
halved_reward_antitone (suc d) a =
    rw suc-add (le_trans (halved_reward_falls (d + a)) (halved_reward_antitone d a))

halved_reward_early_table : passes (λ k. ltb 0 (halved_reward k)) 0 33 ≡ true
unfolding passes halved_reward
halved_reward_early_table = refl

-- A later block has no larger block reward.
pub block_reward_antitone : (h h' : ℕ) → h ≤ h' → block_reward h' ≤ block_reward h
unfolding block_reward
block_reward_antitone h h' le =
    let d = h' / halving_interval - h / halving_interval in
    let split : h' / halving_interval ≡ d + h / halving_interval = omega arith in
    rw split (halved_reward_antitone d (h / halving_interval))

-- The block reward is zero exactly from the 33rd halving on.
pub block_reward-eq-zero_iff : (h : ℕ) → (block_reward h ≡ 0) ↔ (33 * halving_interval ≤ h)
unfolding block_reward
block_reward-eq-zero_iff h = (
  λ z. elim (Bool-cases (ltb (h / halving_interval) 33)) [
    | inl early ↦ absurd (
        ground (
          arith,
          passes_at _ 0 33 (h / halving_interval) halved_reward_early_table (omega arith)
              (ltb→lt _ _ early),
          z,
        ))
    | inr late ↦ ground arith
  ],
  λ late. halved_reward_late (h / halving_interval) (omega arith),
)

-- No block earns more than the initial reward.
pub block_reward-le : (h : ℕ) → block_reward h ≤ initial_block_reward
unfolding block_reward halved_reward
block_reward-le h = block_reward_antitone 0 h (omega arith)

-- ===== src/Block/Reward.antt =====
-- What `finalize` mints, and how it orders the transactions.
use mathlib.Core.List.{Perm}
use border.Prelude.{
  String, ℕ, ◌≡◌, refl, true, not, List, [], ◌∷◌, All, keep, keep-All, All-map, All-trivial, arith,
}
use border.Prelude.Int.{ℤ, pos, ◌+ℤ◌, ◌≤ℤ◌, ◌<ℤ◌, leb_ℤ, int_laws}
use border.Prelude.Sort.{sorted-perm, sorted-All, IsSorted, sorted-IsSorted}
use border.Runtime.{Runtime}
use border.Economics.{supply_headroom, max_supply}
use border.Transaction
use border.Transaction.{Transaction, is_coinbase}
use border.Block.{
  Block, RawReward, finalize, capped_reward, compute_hash, user_txs, minted, round_part, raw_reward,
  hashed_fields,
}

-- A fraction below one rounds to the number below or above it.
round_part-le :
    (whole headroom : ℤ) (part : ℕ) → whole <ℤ headroom → round_part whole part ≤ℤ headroom
unfolding round_part ◌+ℤ◌
round_part-le whole headroom part h = ground arith

capped_reward-le : (raw : RawReward) (headroom : ℤ) → capped_reward raw headroom ≤ℤ headroom
unfolding capped_reward
capped_reward-le raw headroom = ground (arith, round_part-le raw.whole headroom raw.part)

minted_none :
    (txs : List Transaction) → All (λ tx. not (is_coinbase tx) ≡ true) txs → minted txs ≡ pos 0
minted_none [] h = refl
minted_none (tx ∷ txs) h = ground (arith, minted_none txs h.1)

module _ (rt : Runtime) where
  minted-user_txs : (txs : List Transaction) → minted (user_txs rt txs) ≡ pos 0
  unfolding user_txs
  minted-user_txs txs = minted_none _ (
      sorted-All _ (λ tx. not (is_coinbase tx) ≡ true) _
        (All-map _ _ (λ tx e. e.0) _ (keep-All (λ _. Unit {0}) _ txs (All-trivial txs))))

  -- What holds of all transactions holds of those that `finalize` keeps.
  pub user_txs-All {κ} :
      (P : Transaction → Type κ) (txs : List Transaction) → All P txs → All P (user_txs rt txs)
  unfolding user_txs
  user_txs-All P txs h = sorted-All _ P _ (All-map _ P (λ tx e. e.1) _ (keep-All P _ txs h))

  -- With a supply within the cap, the coins of a finalized block leave it within the cap.
  pub finalize_within_cap :
      (current_supply : ℤ) (b : Block)
      → current_supply ≤ℤ pos max_supply
      → current_supply +ℤ minted (finalize rt current_supply b).transactions ≤ℤ pos max_supply
  unfolding finalize supply_headroom Transaction.coinbase
  finalize_within_cap current_supply b h =
      rw minted-user_txs
        (grind (int_laws, capped_reward-le (raw_reward b) (supply_headroom current_supply)))

  -- The hash does not cover the stored hash.
  pub compute_hash-reseal :
      (b : Block) (h : String) → compute_hash rt (record b { block_hash = h }) ≡ compute_hash rt b
  unfolding compute_hash hashed_fields
  compute_hash-reseal b h = refl

  -- The stored hash of a finalized block is the hash of its contents.
  pub finalize_sealed :
      (current_supply : ℤ) (b : Block)
      → compute_hash rt (finalize rt current_supply b) ≡ (finalize rt current_supply b).block_hash
  unfolding finalize compute_hash hashed_fields
  finalize_sealed current_supply b = refl

  -- Behind the coinbase stand the user transactions of the block, each once, and none other.
  user_txs-perm :
      (txs : List Transaction) → Perm (user_txs rt txs) (keep (λ tx. not (is_coinbase tx)) txs)
  unfolding user_txs
  user_txs-perm txs = sorted-perm _ _

  user_txs-IsSorted :
      (txs : List Transaction) → IsSorted (λ a b. leb_ℤ b.fee a.fee) (user_txs rt txs)
  unfolding user_txs
  user_txs-IsSorted txs =
      sorted-IsSorted (λ (a b : Transaction). leb_ℤ b.fee a.fee) (λ a b. ground arith)
        (λ a b c h k. ground arith) (keep (λ tx. not (is_coinbase tx)) txs)

  -- The transactions of a finalized block are a coinbase for its miner and then the block's
  -- transactions that are no coinbase, rearranged so that no fee is below a later one.
  pub finalize_transactions :
      (current_supply : ℤ) (b : Block)
      → (reward : ℤ) × (txs : List Transaction) × ((finalize rt current_supply b).transactions
          ≡ Transaction.coinbase rt b.miner_address reward (rt.show_int b.index) ∷ txs)
        × Perm txs (keep (λ tx. not (is_coinbase tx)) b.transactions)
        × IsSorted (λ a b. leb_ℤ b.fee a.fee) txs
  unfolding finalize
  finalize_transactions current_supply b = (
    capped_reward (raw_reward b) (supply_headroom current_supply),
    user_txs rt b.transactions,
    refl,
    user_txs-perm b.transactions,
    user_txs-IsSorted b.transactions,
  )

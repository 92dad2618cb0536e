-- ===== src/Network/Sync/Fork.antt =====
-- `_find_fork` of border/p2p/sync.py: the binary search for the last block that is shared.
use mathlib.Core.WellFounded.{Acc}
use mathlib.Core.Logic.{dite, dif_pos, dif_neg}
use native.Mathlib.Bridge.{le_prop}
use border.Prelude.{
  ℕ, zero, suc, ◌+◌, ◌-◌, ◌*◌, ◌^◌, ◌≤◌, ◌<◌, ◌≡◌, ◌⊎◌, inl, inr, Bool, true, false, arith, dec_lt,
  Bool-cases, refl, if◌then◌else◌,
}
use border.Chain.{Chain}
use border.Network.Sync.{
  Span, ◌⊏◌, ⊏_wf, mid, upper, lower, upper-⊏, lower-⊏, Answers, agrees, fork_loop, find_fork, min,
}

-- `n` is the last index up to `most` at which the test holds.
abbrev pub IsLast : (ℕ → Bool) → ℕ → ℕ → Type 0
IsLast agree most n = (agree n ≡ true) × ((i : ℕ) → n < i → i ≤ most → agree i ≡ false)

abbrev tick : ℕ × ℕ → ℕ × ℕ
tick r = (r.0, suc r.1)

-- The loop, also counting how often it asks the peer.
unfoldable counted_loop : (ℕ → Bool) → (r : Span) → Acc ◌⊏◌ r → ℕ × ℕ
counted_loop agree r (Acc.intro _ inner) =
    dite (dec_lt r.lo r.hi)
      (λ h. elim (agree (mid r)) [
        | true ↦ tick (counted_loop agree (upper r) (inner _ (upper-⊏ r h)))
        | false ↦ tick (counted_loop agree (lower r) (inner _ (lower-⊏ r h)))
      ])
      (λ _. (r.lo, 0))

pow-suc : (k : ℕ) → 2 ^ suc k ≡ 2 * 2 ^ k
pow-suc k = ground arith

suc_mono : {a b : ℕ} → a ≤ b → suc a ≤ suc b
suc_mono h = omega arith

module _ (agree : ℕ → Bool) where
  fork_loop_found :
      (r : Span) (w : Acc ◌⊏◌ r)
      → r.lo ≤ r.hi
      → (r.lo ≤ fork_loop agree r w)
        × (fork_loop agree r w ≤ r.hi)
        × ((fork_loop agree r w ≡ r.lo) ⊎ (agree (fork_loop agree r w) ≡ true))
  unfolding fork_loop
  fork_loop_found r (Acc.intro _ inner) le = elim (dec_lt r.lo r.hi) [
    | no empty ↦ rw (dif_neg (dec_lt r.lo r.hi) empty) (omega arith, le, inl refl)
    | yes h ↦ rw (dif_pos (dec_lt r.lo r.hi) le_prop h) (elim (Bool-cases (agree (mid r))) [
      | inl e ↦
          rw e (ground (arith, e, fork_loop_found (upper r) (inner _ (upper-⊏ r h)) (omega arith)))
      | inr e ↦
          rw e (ground (arith, fork_loop_found (lower r) (inner _ (lower-⊏ r h)) (omega arith)))
    ])
  ]

  counted_loop_lem :
      (k : ℕ) (r : Span) (w : Acc ◌⊏◌ r)
      → r.hi - r.lo < 2 ^ k
      → ((counted_loop agree r w).0 ≡ fork_loop agree r w) × ((counted_loop agree r w).1 ≤ k)
  unfolding counted_loop fork_loop
  counted_loop_lem zero r (Acc.intro _ inner) small = elim (dec_lt r.lo r.hi) [
    | no empty ↦
        rw (dif_neg (dec_lt r.lo r.hi) empty, dif_neg (dec_lt r.lo r.hi) empty) (refl, omega arith)
    | yes h ↦ absurd (omega arith)
  ]
  counted_loop_lem (suc k) r (Acc.intro _ inner) small = elim (dec_lt r.lo r.hi) [
    | no empty ↦
        rw (dif_neg (dec_lt r.lo r.hi) empty, dif_neg (dec_lt r.lo r.hi) empty) (refl, omega arith)
    | yes h ↦
        let up = counted_loop_lem k (upper r) (inner _ (upper-⊏ r h)) (omega (arith, pow-suc k)) in
        let down =
          counted_loop_lem k (lower r) (inner _ (lower-⊏ r h)) (omega (arith, pow-suc k)) in
        rw (dif_pos (dec_lt r.lo r.hi) le_prop h, dif_pos (dec_lt r.lo r.hi) le_prop h)
          (elim (Bool-cases (agree (mid r))) [
            | inl e ↦ rw e (up.0, suc_mono up.1)
            | inr e ↦ rw e (down.0, suc_mono down.1)
          ])
  ]

  module _ (prefix : (i j : ℕ) → i ≤ j → agree j ≡ true → agree i ≡ true) where
    IsLast-lower :
        (r : Span) (n : ℕ)
        → r.lo < r.hi
        → agree (mid r) ≡ false
        → IsLast agree (mid r - 1) n
        → IsLast agree r.hi n
    IsLast-lower r n h e (found, none_above) = (
      found,
      λ i above below. elim (Bool-cases (agree i)) [
        | inr other ↦ other
        | inl same ↦ elim (dec_lt i (mid r)) [
          | yes inside ↦ none_above i above (omega arith)
          | no beyond ↦ absurd (cc (prefix (mid r) i (omega arith) same, e))
        ]
      ],
    )

    fork_loop-IsLast :
        (r : Span) (w : Acc ◌⊏◌ r)
        → r.lo ≤ r.hi
        → agree r.lo ≡ true
        → IsLast agree r.hi (fork_loop agree r w)
    unfolding fork_loop
    fork_loop-IsLast r (Acc.intro _ inner) le here = elim (dec_lt r.lo r.hi) [
      | no empty ↦
          rw (dif_neg (dec_lt r.lo r.hi) empty) (here, λ i above below. absurd (omega arith))
      | yes h ↦ rw (dif_pos (dec_lt r.lo r.hi) le_prop h) (elim (Bool-cases (agree (mid r))) [
        | inl e ↦ rw e (fork_loop-IsLast (upper r) (inner _ (upper-⊏ r h)) (omega arith) e)
        | inr e ↦ rw e (
            IsLast-lower r _ h e
              (fork_loop-IsLast (lower r) (inner _ (lower-⊏ r h)) (omega arith) here))
      ])
    ]

module _ (peer : Answers) (ours theirs : ℕ) (c : Chain) where
  whole : Span
  whole = record { lo = 0; hi = min ours theirs }

  -- Whatever a peer of at least our height answers, the fork point is no later than our height, and
  -- it is a block on which the peer agrees or the first one.
  pub find_fork_found :
      (find_fork peer ours theirs c ≤ ours)
      × ((find_fork peer ours theirs c ≡ 0) ⊎ (agrees peer c (find_fork peer ours theirs c) ≡ true))
  unfolding find_fork whole
  find_fork_found =
      ground (arith, fork_loop_found (agrees peer c) whole (⊏_wf.apply _) (omega arith))

  -- A peer that agrees on the first block, and on every block before one on which it agrees: the
  -- search gives the last block up to both heights on which it agrees.
  pub find_fork-IsLast :
      ours ≤ theirs
      → agrees peer c 0 ≡ true
      → ((i j : ℕ) → i ≤ j → agrees peer c j ≡ true → agrees peer c i ≡ true)
      → IsLast (agrees peer c) ours (find_fork peer ours theirs c)
  unfolding find_fork whole
  find_fork-IsLast behind first prefix = elim (Bool-cases (agrees peer c ours)) [
    | inl e ↦ rw e (e, λ i above below. absurd (omega arith))
    | inr e ↦
        let loop =
          fork_loop-IsLast (agrees peer c) prefix whole (⊏_wf.apply _) (omega arith) first in
        rw e (loop.0, λ i above below. loop.1 i above (ground arith))
  ]

  -- `_find_fork`, also counting the hashes that it asks for, our tip's included.
  unfoldable pub counted_fork : ℕ × ℕ
  unfolding counted_loop whole
  counted_fork =
      if agrees peer c ours
      then (ours, 1)
      else tick (counted_loop (agrees peer c) whole (⊏_wf.apply _))

  -- The search ends with its result: at a height below 2 to the power k it asks the peer for at most
  -- k + 1 hashes.
  pub find_fork_ends :
      (k : ℕ)
      → ours < 2 ^ k
      → (counted_fork.0 ≡ find_fork peer ours theirs c) × (counted_fork.1 ≤ k + 1)
  unfolding counted_fork find_fork whole
  find_fork_ends k small =
      ground (arith, counted_loop_lem (agrees peer c) k whole (⊏_wf.apply _) (ground arith))

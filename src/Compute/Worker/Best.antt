-- ===== src/Compute/Worker/Best.antt =====
-- The worker that the registry picks: one that can take the job, with the highest score.
use native.Mathlib.Nat.{mul-le-mul_right, le_of_mul-le-mul_right}
use mathlib.Core.List.{Mem, mem-cons_self, mem-cons_of_mem}
use border.Prelude.{
  ℕ, ◌*◌, ◌<◌, ◌≤◌, leb→le, le→leb, sym, subst, ◌≡◌, refl, true, none, some, Option, List, [], ◌∷◌,
  arith, All, All-map, ◌⊎◌,
}
use mathlib.Core.Option.{some-injective}
use border.Prelude.Int.{ℤ}
use border.Prelude.Dict.{values}
use border.Prelude.Sort.{sorted, IsSorted, sorted-IsSorted, sorted-All, All-sorted}
use border.Compute.Worker.{
  BorderWorker, Registry, Score, score_ge, score_for_job, candidates, scored, best_worker_for,
  first_worker, can_handle, at_least_one,
}

score_ge_total : (x y : Score × BorderWorker) → (score_ge x y ≡ true) ⊎ (score_ge y x ≡ true)
score_ge_total x y = ground arith

fraction_trans : (a b c x y z : ℕ) → 0 < y → b * x ≤ a * y → c * y ≤ b * z → c * x ≤ a * z
fraction_trans a b c x y z h u v =
    le_of_mul-le-mul_right (omega (arith, mul-le-mul_right z u, mul-le-mul_right x v)) h

at_least_one-pos : (n : ℕ) → 0 < at_least_one n
at_least_one-pos n = ground arith

score_ge_trans :
    (x y z : Score × BorderWorker) → score_ge x y ≡ true → score_ge y z ≡ true → score_ge x z ≡ true
score_ge_trans x y z h k = le→leb _ _ (
    fraction_trans x.0.num y.0.num z.0.num (at_least_one x.0.vram) (at_least_one y.0.vram)
      (at_least_one z.0.vram) (at_least_one-pos y.0.vram) (leb→le _ _ h) (leb→le _ _ k))

module _ (now vram : ℕ) (price : ℤ) where
  -- A worker of the list, with the score that it has for the job.
  IsScored : List BorderWorker → Score × BorderWorker → Type 0
  IsScored ws (s, w) = (score_for_job now vram price w ≡ some s) × Mem w ws

  scored-All :
      (o : Option Score) (w : BorderWorker) (ws : List BorderWorker)
      (rest : List (Score × BorderWorker))
      → score_for_job now vram price w ≡ o
      → All (IsScored ws) rest
      → All (IsScored (w ∷ ws)) (scored o w rest)
  unfolding IsScored
  scored-All none w ws rest e h =
      All-map (IsScored ws) (IsScored (w ∷ ws)) (λ (s, v) k. (k.0, mem-cons_of_mem w k.1)) rest h
  scored-All (some s) w ws rest e h = (
    (e, mem-cons_self),
    All-map (IsScored ws) (IsScored (w ∷ ws)) (λ (s, v) k. (k.0, mem-cons_of_mem w k.1)) rest h,
  )

  candidates-All : (ws : List BorderWorker) → All (IsScored ws) (candidates now vram price ws)
  unfolding candidates
  candidates-All [] = tt
  candidates-All (w ∷ ws) =
      scored-All (score_for_job now vram price w) w ws (candidates now vram price ws) refl
        (candidates-All ws)

  score_for_job-can_handle :
      (w : BorderWorker) (s : Score)
      → score_for_job now vram price w ≡ some s
      → can_handle now vram price w ≡ true
  unfolding score_for_job
  score_for_job-can_handle w s h = ground arith

  -- What holds of all candidates holds of each worker with its score.
  scored-each :
      (Q : Score × BorderWorker → Type 0) (o : Option Score) (w : BorderWorker)
      (rest : List (Score × BorderWorker))
      → All Q (scored o w rest)
      → ((s : Score) → o ≡ some s → Q (s, w)) × All Q rest
  scored-each Q none w rest h = (λ s e. absurd (cc e), h)
  scored-each Q (some t) w rest h = (λ s e. subst (λ u. Q (u, w)) (some-injective t s e) h.0, h.1)

  candidates-each :
      (Q : Score × BorderWorker → Type 0) (ws : List BorderWorker)
      → All Q (candidates now vram price ws)
      → All (λ w. (s : Score) → score_for_job now vram price w ≡ some s → Q (s, w)) ws
  unfolding candidates
  candidates-each Q [] h = tt
  candidates-each Q (w ∷ ws) h =
      let both =
        scored-each Q (score_for_job now vram price w) w (candidates now vram price ws) h in
      (both.0, candidates-each Q ws both.1)

  -- The worker is of the list and can take the job, and no other worker's score is higher.
  pub record IsBest (workers : List BorderWorker) (w : BorderWorker) : Type 0 where
    pub score : Score
    pub scores : score_for_job now vram price w ≡ some score
    pub known : Mem w workers
    pub able : can_handle now vram price w ≡ true
    pub highest :
        All
          (λ v.
            (s : Score)
            → score_for_job now vram price v ≡ some s
            → score_ge (score, w) (s, v) ≡ true)
          workers

  first_worker-IsBest :
      (ws : List BorderWorker) (l : List (Score × BorderWorker)) (w : BorderWorker)
      → sorted score_ge (candidates now vram price ws) ≡ l
      → first_worker l ≡ some w
      → IsBest ws w
  unfolding IsScored
  first_worker-IsBest ws [] w e f = absurd (cc f)
  first_worker-IsBest ws ((s, v) ∷ rest) w e f =
      let here = some-injective v w f in
      let all : All (IsScored ws) ((s, v) ∷ rest) =
        subst (All (IsScored ws)) e
          (sorted-All score_ge (IsScored ws) (candidates now vram price ws) (candidates-All ws)) in
      let order : IsSorted score_ge ((s, v) ∷ rest) =
        subst (IsSorted score_ge) e
          (sorted-IsSorted score_ge score_ge_total score_ge_trans (candidates now vram price ws)) in
      let top : All (λ y. score_ge (s, v) y ≡ true)
          (sorted score_ge (candidates now vram price ws)) =
        subst (All (λ y. score_ge (s, v) y ≡ true)) (sym e) (le→leb _ _ (omega arith), order.0) in
      subst (IsBest ws) here (record {
        score = s;
        scores = all.0.0;
        known = all.0.1;
        able = score_for_job-can_handle v s all.0.0;
        highest =
            candidates-each (λ y. score_ge (s, v) y ≡ true) ws
              (All-sorted score_ge _ (candidates now vram price ws) top);
      })

  -- The worker that the registry picks is a registered one, can take the job and has the highest score of all.
  pub best_worker_for-IsBest :
      (workers : Registry) (w : BorderWorker)
      → best_worker_for now vram price workers ≡ some w
      → IsBest (values workers) w
  unfolding best_worker_for
  best_worker_for-IsBest workers w h =
      first_worker-IsBest (values workers)
        (sorted score_ge (candidates now vram price (values workers))) w refl h

-- ===== src/Render/Market/Best.antt =====
-- The worker that the render market picks.
use mathlib.Core.List.{Mem, mem-cons_self, mem-cons_of_mem}
use mathlib.Core.Option.{some-injective}
use border.Prelude.{
  ◌≡◌, refl, subst, true, some, List, [], ◌∷◌, keep, keep-All, sym, Bool, arith, All, All-map,
  Bool-cases, inl, inr, if◌then◌else◌,
}
use border.Prelude.Int.{◌≤ℤ◌, ltb_ℤ}
use border.Prelude.Dict.{Dict, values}
use border.Render.{RenderJob}
use border.Render.Market.{RenderWorker, score, can_serve, max_of, first_best, best_worker}

-- The worker can serve the job, and no other that can has a higher score.
pub record IsBest (job : RenderJob) (workers : List RenderWorker) (w : RenderWorker) : Type 0 where
  pub known : Mem w workers
  pub able : can_serve job w ≡ true
  pub highest : All (λ v. can_serve job v ≡ true → score v ≤ℤ score w) workers

better : RenderWorker → RenderWorker → RenderWorker
better w v = if ltb_ℤ (score w) (score v) then v else w

better-le : (w v : RenderWorker) → (score w ≤ℤ score (better w v)) × (score v ≤ℤ score (better w v))
unfolding better
better-le w v = ground arith

max_of-le :
    (w : RenderWorker) (vs : List RenderWorker)
    → (score w ≤ℤ score (max_of w vs)) × All (λ v. score v ≤ℤ score (max_of w vs)) vs
unfolding max_of better
max_of-le w [] = (omega arith, tt)
max_of-le w (v ∷ vs) =
    let rest = max_of-le (better w v) vs in
    let both = better-le w v in
    (omega (arith, both.0, rest.0), (omega (arith, both.1, rest.0), rest.1))

max_of-All :
    (P : RenderWorker → Type 0) (w : RenderWorker) (vs : List RenderWorker)
    → P w
    → All P vs
    → P (max_of w vs)
unfolding max_of
max_of-All P w [] h a = h
max_of-All P w (v ∷ vs) h a = elim (Bool-cases (ltb_ℤ (score w) (score v))) [
  | inl e ↦ rw e (max_of-All P v vs a.0 a.1)
  | inr e ↦ rw e (max_of-All P w vs h a.1)
]

members : (ws : List RenderWorker) → All (λ v. Mem v ws) ws
members [] = tt
members (w ∷ ws) = (
  mem-cons_self,
  All-map (λ v. Mem v ws) (λ v. Mem v (w ∷ ws)) (λ v m. mem-cons_of_mem w m) ws (members ws),
)

keep-each :
    (p : RenderWorker → Bool) (Q : RenderWorker → Type 0) (ws : List RenderWorker)
    → All Q (keep p ws)
    → All (λ v. p v ≡ true → Q v) ws
keep-each p Q [] h = tt
keep-each p Q (w ∷ ws) h = elim (Bool-cases (p w)) [
  | inl e ↦ let h' : All Q (w ∷ keep p ws) = rw e at h in (λ _. h'.0, keep-each p Q ws h'.1)
  | inr e ↦ let h' : All Q (keep p ws) = rw e at h in (λ f. absurd (cc (e, f)), keep-each p Q ws h')
]

first_best-IsBest :
    (job : RenderJob) (ws l : List RenderWorker) (w : RenderWorker)
    → keep (can_serve job) ws ≡ l
    → first_best l ≡ some w
    → IsBest job ws w
unfolding first_best
first_best-IsBest job ws [] w e f = absurd (cc f)
first_best-IsBest job ws (v ∷ vs) w e f =
    let kept : All (λ u. (can_serve job u ≡ true) × Mem u ws) (v ∷ vs) =
      subst (All (λ u. (can_serve job u ≡ true) × Mem u ws)) e
        (keep-All (λ u. Mem u ws) (can_serve job) ws (members ws)) in
    let best = max_of-All (λ u. (can_serve job u ≡ true) × Mem u ws) v vs kept.0 kept.1 in
    subst (IsBest job ws) (some-injective (max_of v vs) w f) (record {
      known = best.1;
      able = best.0;
      highest =
          keep-each (can_serve job) (λ u. score u ≤ℤ score (max_of v vs)) ws
            (subst (All (λ u. score u ≤ℤ score (max_of v vs))) (sym e) (max_of-le v vs));
    })

-- The worker that the market picks for a job is a registered one, can serve it, and has the highest
-- score of those that can.
pub best_worker-IsBest :
    (job : RenderJob) (workers : Dict RenderWorker) (w : RenderWorker)
    → best_worker job workers ≡ some w
    → IsBest job (values workers) w
unfolding best_worker
best_worker-IsBest job workers w h =
    first_best-IsBest job (values workers) (keep (can_serve job) (values workers)) w refl h

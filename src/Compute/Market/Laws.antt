-- ===== src/Compute/Market/Laws.antt =====
-- The books of the market over any sequence of calls.
use border.Prelude.{
  ℕ, ◌≡◌, refl, sym, ap, ◌∙◌, String, Option, none, some, List, [], ◌∷◌, ◌++◌, map, arith,
}
use border.Prelude.Dict.{Dict, get, put, values, AreOnce, AreOnce-put}
use border.Runtime.{Runtime}
use border.Compute.{ComputeJob, ComputeProof}
use border.Compute.Worker.{BorderWorker, register, heartbeat}
use border.Compute.Market.{
  Market, Payment, try_assign, submit_job, submit_proof, submit_proof_on, settle, refusal, Refusal,
  pay, fail_job, expire_stale_jobs, retry_pending_jobs, retry, empty_market,
}

-- One call of an operation that changes the market.
pub data Step (rt : Runtime) (m : Market) : Market → Type 0 where
  registered :
      (now : ℕ) (w : BorderWorker) → Step rt m (record m { workers = (register now w m.workers).1 })
  beaten :
      (now : ℕ) (worker_id : String)
      → Step rt m (record m { workers = (heartbeat now worker_id m.workers).1 })
  submitted : (now : ℕ) (job : ComputeJob) → Step rt m (submit_job now job m).1
  proved : (now : ℕ) (p : ComputeProof) → Step rt m (submit_proof rt now p m).1
  failed :
      (fresh : String) (now : ℕ) (job_id reason : String)
      → Step rt m (fail_job fresh now job_id reason m).1
  expired : (now : ℕ) → Step rt m (expire_stale_jobs now m).1
  retried : (now : ℕ) → Step rt m (retry_pending_jobs now m).1

pub data Reach (rt : Runtime) : Market → Type 0 where
  start : Reach rt empty_market
  next : {m m' : Market} → Reach rt m → Step rt m m' → Reach rt m'

-- Whom a payment and a proof are for.
abbrev pub paid_for : Payment → String × String × String
paid_for y = (y.job_id, y.worker_address, y.client_address)

abbrev pub proved_for : String × ComputeProof → String × String × String
proved_for (id, p) = (id, p.worker_address, p.client_address)

-- The payments are those of the proofs, one each in their order, and no job has two proofs.
pub record ArePaidOnce (m : Market) : Type 0 where
  pub paid : map paid_for m.payments ≡ map proved_for m.proofs
  pub once : AreOnce m.proofs

pub record SameBooks (m m' : Market) : Type 0 where
  pub proofs : m'.proofs ≡ m.proofs
  pub payments : m'.payments ≡ m.payments

same : {m : Market} → SameBooks m m
same = record { proofs = refl; payments = refl }

SameBooks-trans : {m n o : Market} → SameBooks m n → SameBooks n o → SameBooks m o
SameBooks-trans h k = record { proofs = k.proofs ∙ h.proofs; payments = k.payments ∙ h.payments }

SameBooks-ArePaidOnce : {m m' : Market} → SameBooks m m' → ArePaidOnce m → ArePaidOnce m'
SameBooks-ArePaidOnce s h = record {
  paid = rw (s.payments, s.proofs) h.paid;
  once = rw s.proofs h.once;
}

pub try_assign-books :
    (now : ℕ) (job : ComputeJob) (m : Market) → SameBooks m (try_assign now job m).1
unfolding try_assign
try_assign-books now job m = ground arith

submit_job-books : (now : ℕ) (job : ComputeJob) (m : Market) → SameBooks m (submit_job now job m).1
unfolding submit_job try_assign
submit_job-books now job m = ground arith

fail_job-books :
    (fresh : String) (now : ℕ) (job_id reason : String) (m : Market)
    → SameBooks m (fail_job fresh now job_id reason m).1
unfolding fail_job try_assign
fail_job-books fresh now job_id reason m = ground arith

retry-books :
    (now : ℕ) (jobs : List ComputeJob) (n : ℕ) (m : Market) → SameBooks m (retry now jobs n m).1
unfolding retry
retry-books now [] n m = same
retry-books now (job ∷ jobs) n m =
    SameBooks-trans (try_assign-books now job m) (retry-books now jobs _ (try_assign now job m).1)

map_snoc {ℓ κ} :
    {A : Type ℓ} {B : Type κ} (f : A → B) (xs : List A) (x : A)
    → map f (xs ++ x ∷ []) ≡ map f xs ++ f x ∷ []
map_snoc f [] x = refl
map_snoc f (y ∷ xs) x = ap (λ l. f y ∷ l) (map_snoc f xs x)

map-put :
    (k : String) (p : ComputeProof) (d : Dict ComputeProof)
    → get k d ≡ none
    → map proved_for (put k p d) ≡ map proved_for d ++ proved_for (k, p) ∷ []
unfolding get put
map-put k p [] h = refl
map-put k p ((j, q) ∷ d) h = ground (arith, map-put k p d)

pay-ArePaidOnce :
    (now : ℕ) (p : ComputeProof) (job : ComputeJob) (m : Market)
    → get p.job_id m.proofs ≡ none
    → ArePaidOnce m
    → ArePaidOnce (pay now p job m)
unfolding pay
pay-ArePaidOnce now p job m fresh h = record {
  paid =
      map_snoc paid_for m.payments _
      ∙ ap (λ l. l ++ proved_for (p.job_id, p) ∷ []) h.paid
      ∙ sym (map-put p.job_id p m.proofs fresh);
  once = AreOnce-put p.job_id p m.proofs fresh h.once;
}

refusal-fresh :
    (rt : Runtime) (p : ComputeProof) (job : ComputeJob) (m : Market)
    → refusal rt p job m ≡ none
    → get p.job_id m.proofs ≡ none
unfolding refusal
refusal-fresh rt p job m h = ground arith

settle-ArePaidOnce :
    (rt : Runtime) (now : ℕ) (p : ComputeProof) (job : ComputeJob) (m : Market) (r : Option Refusal)
    → (r ≡ none → get p.job_id m.proofs ≡ none)
    → ArePaidOnce m
    → ArePaidOnce (settle rt now p job m r).1
unfolding settle pay
settle-ArePaidOnce rt now p job m (some r) fresh h = h
settle-ArePaidOnce rt now p job m none fresh h = pay-ArePaidOnce now p job m (fresh refl) h

submit_proof_on-ArePaidOnce :
    (rt : Runtime) (now : ℕ) (p : ComputeProof) (m : Market) (job : Option ComputeJob)
    → ArePaidOnce m
    → ArePaidOnce (submit_proof_on rt now p m job).1
unfolding submit_proof_on
submit_proof_on-ArePaidOnce rt now p m none h = h
submit_proof_on-ArePaidOnce rt now p m (some job) h =
    settle-ArePaidOnce rt now p job m (refusal rt p job m) (refusal-fresh rt p job m) h

submit_proof-ArePaidOnce :
    (rt : Runtime) (now : ℕ) (p : ComputeProof) (m : Market)
    → ArePaidOnce m
    → ArePaidOnce (submit_proof rt now p m).1
unfolding submit_proof
submit_proof-ArePaidOnce rt now p m = submit_proof_on-ArePaidOnce rt now p m (get p.job_id m.jobs)

Step-ArePaidOnce : {rt : Runtime} {m m' : Market} → Step rt m m' → ArePaidOnce m → ArePaidOnce m'
unfolding expire_stale_jobs retry_pending_jobs
Step-ArePaidOnce (registered now w) h = record { paid = h.paid; once = h.once }
Step-ArePaidOnce (beaten now worker_id) h = record { paid = h.paid; once = h.once }
Step-ArePaidOnce {m} (submitted now job) h = SameBooks-ArePaidOnce (submit_job-books now job m) h
Step-ArePaidOnce {rt} {m} (proved now p) h = submit_proof-ArePaidOnce rt now p m h
Step-ArePaidOnce {m} (failed fresh now job_id reason) h =
    SameBooks-ArePaidOnce (fail_job-books fresh now job_id reason m) h
Step-ArePaidOnce (expired now) h = record { paid = h.paid; once = h.once }
Step-ArePaidOnce {m} (retried now) h = SameBooks-ArePaidOnce (retry-books now (values m.jobs) 0 m) h

-- After any sequence of calls, the failures and retries included, the payments are those of the
-- stored proofs, in their order and to their workers, and each job is paid at most once.
pub Reach-ArePaidOnce : {rt : Runtime} {m : Market} → Reach rt m → ArePaidOnce m
Reach-ArePaidOnce start = record { paid = refl; once = tt }
Reach-ArePaidOnce (next r s) = Step-ArePaidOnce s (Reach-ArePaidOnce r)

-- ===== src/Script/Machine/Timelock.antt =====
-- The height-locked variant of P2PKH.
use mathlib.Core.List.{append_assoc}
use border.Prelude.{
  ℕ, suc, ◌<◌, String, ◌≡◌, refl, ◌∙◌, some, List, [], ◌∷◌, ◌++◌, arith, ltb, if◌then◌else◌,
  Bool-cases, inl, inr,
}
use border.Runtime.{Runtime}
use border.Script.Op
use border.Script.Bytes.{Bytes, to_bytes, four_bytes, from_bytes-four_bytes}
use border.Script.Build.{push, double_hash, p2pkh_unlock, timelock_lock}
use border.Script.Engine.{go_on, stop, failed, locked_until}
use border.Script.Machine.{step, late_step, execute, run}
use border.Script.Machine.Templates.{
  pushed, tail_of, p2pkh_outcome, execute-goes, execute-stops, execute-push, tail_runs, unlock_runs,
  p2pkh_unlock-some,
}

module _ (rt : Runtime) (height : ℕ) (msg : Bytes) where
  timelock_of : ℕ → Bytes → Bytes
  timelock_of lock_height hash =
      pushed (four_bytes lock_height) ++ (Op.claimtimeverify ∷ Op.drop ∷ tail_of rt height msg hash)

  timelock_lock-some :
      (lock_height : ℕ) (owner : String) {lock : Bytes}
      → timelock_lock rt lock_height owner ≡ some lock
      → (timelock_of lock_height (double_hash rt (rt.encode owner)) ≡ lock)
        × (lock_height < 4_294_967_296)
  unfolding timelock_lock push to_bytes timelock_of
  timelock_lock-some lock_height owner h = ground arith

  step-claimtimeverify :
      (lock_height : ℕ) (rest : Bytes) (stack : List Bytes)
      → lock_height < 4_294_967_296
      → step rt height msg Op.claimtimeverify rest (four_bytes lock_height ∷ stack) ≡ (
          if ltb height lock_height
          then stop (failed (locked_until lock_height height))
          else go_on rest (four_bytes lock_height ∷ stack))
  unfolding step late_step
  step-claimtimeverify lock_height rest stack h = rw (from_bytes-four_bytes lock_height h) refl

  step-drop :
      (top rest : Bytes) (stack : List Bytes)
      → step rt height msg Op.drop rest (top ∷ stack) ≡ go_on rest stack
  unfolding step
  step-drop top rest stack = refl

  -- The lock test and the drop of the height that it read.
  lock_runs :
      (k lock_height : ℕ) (rest : Bytes) (stack : List Bytes)
      → lock_height < 4_294_967_296
      → execute rt height msg
          (suc (suc k))
          (Op.claimtimeverify ∷ Op.drop ∷ rest)
          (four_bytes lock_height ∷ stack)
        ≡ (if ltb height lock_height
            then failed (locked_until lock_height height)
            else execute rt height msg k rest stack)
  lock_runs k lock_height rest stack h =
      let tested = step-claimtimeverify lock_height (Op.drop ∷ rest) stack h in
      elim (Bool-cases (ltb height lock_height)) [
        | inl locked ↦ rw (locked) (
            execute-stops rt height msg (suc k) Op.claimtimeverify (Op.drop ∷ rest) _
              (tested ∙ rw (locked) refl))
        | inr unlocked ↦ rw (unlocked) (
            execute-goes rt height msg (suc k) Op.claimtimeverify (Op.drop ∷ rest) _
              (tested ∙ rw (unlocked) refl)
            ∙ execute-goes rt height msg k Op.drop rest _
                (step-drop (four_bytes lock_height) rest stack))
      ]

  -- For scripts that the builder makes from texts that decode to themselves: a height-locked output
  -- fails with the lock's reason before its height, and from then on gives what a P2PKH output
  -- gives.
  pub timelock_spends :
      (signature key owner : String) (lock_height : ℕ) {unlock lock : Bytes}
      → p2pkh_unlock rt signature key ≡ some unlock
      → timelock_lock rt lock_height owner ≡ some lock
      → rt.decode (rt.encode signature) ≡ some signature
      → rt.decode (rt.encode key) ≡ some key
      → run rt height msg (unlock ++ lock) ≡ (
          if ltb height lock_height
          then failed (locked_until lock_height height)
          else p2pkh_outcome rt height msg signature key (double_hash rt (rt.encode owner)))
  unfolding run
  timelock_spends signature key owner lock_height hu hl ds dk =
      let hash = double_hash rt (rt.encode owner) in
      let (is_lock, small) = timelock_lock-some lock_height owner hl in
      rw
        (
          ← p2pkh_unlock-some rt height msg signature key hu,
          ← is_lock,
          append_assoc (pushed (rt.encode signature)) (pushed (rt.encode key)),
        )
        (unlock_runs rt height msg 200 signature key (timelock_of lock_height hash)
          ∙ unfold timelock_of in
            execute-push rt height msg 199 (four_bytes lock_height)
              (Op.claimtimeverify ∷ Op.drop ∷ tail_of rt height msg hash)
              (rt.encode key ∷ rt.encode signature ∷ []) (omega arith)
            ∙ lock_runs 197 lock_height (tail_of rt height msg hash)
                (rt.encode key ∷ rt.encode signature ∷ []) small
            ∙ rw (tail_runs rt height msg 192 signature key hash ds dk))

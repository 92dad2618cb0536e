-- ===== src/Script/Machine/Templates.antt =====
-- What the standard locking scripts demand of the scripts that unlock them.
use mathlib.Core.List.{append_assoc}
use border.Prelude.{
  ℕ, zero, suc, ◌<◌, String, Bool, true, false, ◌≡◌, refl, ◌∙◌, some, List, [], ◌∷◌, ◌++◌, length,
  take-length-append, drop-length-append, arith, if◌then◌else◌,
}
use border.Runtime.{Runtime}
use border.Wallet.{verify}
use border.Script.Op
use border.Script.Bytes.{Bytes, bytes_eq}
use border.Script.Build.{push, double_hash, p2pkh_lock, p2pkh_unlock}
use border.Script.Engine.{
  Round, go_on, stop, Outcome, finished, failed, invalid_signature, equalverify_failed, push_on,
  checksig,
}
use border.Script.Machine.{step, late_step, execute, run, verdict}

-- The bytes of a push.
abbrev pub pushed : Bytes → Bytes
pushed b = Op.push ∷ length b ∷ b

module _ (rt : Runtime) (height : ℕ) (msg : Bytes) where
  pub execute-nil :
      (k : ℕ) (stack : List Bytes) → execute rt height msg k [] stack ≡ verdict rt height msg stack
  unfolding execute
  execute-nil zero stack = refl
  execute-nil (suc k) stack = refl

  -- One round, by what its step does.
  after : ℕ → Round → Outcome
  after k (go_on rest stack) = execute rt height msg k rest stack
  after k (stop outcome) = outcome

  execute-step :
      (k op : ℕ) (rest : Bytes) (stack : List Bytes) {r : Round}
      → step rt height msg op rest stack ≡ r
      → execute rt height msg (suc k) (op ∷ rest) stack ≡ after k r
  unfolding execute after
  execute-step k op rest stack {r} e = rw (e, execute) (same r)
    where
      same :
          (r : Round)
          → elim r [
            | go_on rest' stack' ↦ execute rt height msg k rest' stack'
            | stop outcome ↦ outcome
          ]
            ≡ after k r
      same (go_on rest' stack') = refl
      same (stop outcome) = refl

  pub execute-goes :
      (k op : ℕ) (rest : Bytes) (stack : List Bytes) {rest' : Bytes} {stack' : List Bytes}
      → step rt height msg op rest stack ≡ go_on rest' stack'
      → execute rt height msg (suc k) (op ∷ rest) stack ≡ execute rt height msg k rest' stack'
  unfolding after
  execute-goes k op rest stack e = execute-step k op rest stack e

  pub execute-stops :
      (k op : ℕ) (rest : Bytes) (stack : List Bytes) {outcome : Outcome}
      → step rt height msg op rest stack ≡ stop outcome
      → execute rt height msg (suc k) (op ∷ rest) stack ≡ outcome
  unfolding after
  execute-stops k op rest stack e = execute-step k op rest stack e

  -- A round that goes on or stops by a test.
  pub execute-test :
      (k op : ℕ) (rest : Bytes) (stack : List Bytes) (b : Bool) (rest' : Bytes)
      (stack' : List Bytes) (outcome : Outcome)
      → step rt height msg op rest stack ≡ (if b then go_on rest' stack' else stop outcome)
      → execute rt height msg (suc k) (op ∷ rest) stack
        ≡ (if b then execute rt height msg k rest' stack' else outcome)
  unfolding after
  execute-test k op rest stack true _ _ _ e = execute-step k op rest stack e
  execute-test k op rest stack false _ _ _ e = execute-step k op rest stack e

  step-push :
      (b rest : Bytes) (stack : List Bytes)
      → length stack < 64
      → step rt height msg Op.push (length b ∷ (b ++ rest)) stack ≡ go_on rest (b ∷ stack)
  unfolding step push_on
  step-push b rest stack h = ground (arith, take-length-append b rest, drop-length-append b rest)

  pub execute-push :
      (k : ℕ) (b rest : Bytes) (stack : List Bytes)
      → length stack < 64
      → execute rt height msg (suc k) (pushed b ++ rest) stack
        ≡ execute rt height msg k rest (b ∷ stack)
  unfolding after
  execute-push k b rest stack h = execute-step k Op.push _ stack (step-push b rest stack h)

  -- What a script that ends in the tail of P2PKH comes to.
  abbrev pub p2pkh_outcome : String → String → Bytes → Outcome
  p2pkh_outcome signature key hash =
      if bytes_eq hash (double_hash rt (rt.encode key))
      then (if verify rt key msg signature then finished true else failed invalid_signature)
      else failed equalverify_failed

  abbrev pub tail_of : Bytes → Bytes
  tail_of hash = Op.dup ∷ Op.hash256 ∷ (pushed hash ++ Op.equalverify ∷ Op.checksig ∷ [])

  checksig_runs :
      (k : ℕ) (signature key : String)
      → rt.decode (rt.encode signature) ≡ some signature
      → rt.decode (rt.encode key) ≡ some key
      → execute rt height msg (suc k) (Op.checksig ∷ []) (rt.encode key ∷ rt.encode signature ∷ [])
        ≡ (if verify rt key msg signature then finished true else failed invalid_signature)
  unfolding step late_step push_on checksig
  checksig_runs k signature key ds dk =
      execute-test k Op.checksig [] _ (verify rt key msg signature) [] ((1 ∷ []) ∷ [])
        (failed invalid_signature) (ground arith)
      ∙ rw execute-nil

  equalverify_runs :
      (k : ℕ) (signature key : String) (hash : Bytes)
      → rt.decode (rt.encode signature) ≡ some signature
      → rt.decode (rt.encode key) ≡ some key
      → execute rt height msg
          (suc (suc k))
          (Op.equalverify ∷ Op.checksig ∷ [])
          (hash ∷ double_hash rt (rt.encode key) ∷ rt.encode key ∷ rt.encode signature ∷ [])
        ≡ p2pkh_outcome signature key hash
  unfolding step
  equalverify_runs k signature key hash ds dk =
      execute-test (suc k) Op.equalverify (Op.checksig ∷ []) _
        (bytes_eq hash (double_hash rt (rt.encode key))) (Op.checksig ∷ [])
        (rt.encode key ∷ rt.encode signature ∷ []) (failed equalverify_failed) refl
      ∙ rw (checksig_runs k signature key ds dk)

  pub tail_runs :
      (k : ℕ) (signature key : String) (hash : Bytes)
      → rt.decode (rt.encode signature) ≡ some signature
      → rt.decode (rt.encode key) ≡ some key
      → execute rt height msg
          (suc (suc (suc (suc (suc k)))))
          (tail_of hash)
          (rt.encode key ∷ rt.encode signature ∷ [])
        ≡ p2pkh_outcome signature key hash
  unfolding execute step push_on
  tail_runs k signature key hash ds dk =
      execute-push (suc (suc k)) hash (Op.equalverify ∷ Op.checksig ∷ [])
        (double_hash rt (rt.encode key) ∷ rt.encode key ∷ rt.encode signature ∷ []) (omega arith)
      ∙ equalverify_runs k signature key hash ds dk

  -- The two pushes that every unlocking script of P2PKH makes.
  pub unlock_runs :
      (k : ℕ) (signature key : String) (rest : Bytes)
      → execute rt height msg
          (suc (suc k))
          (pushed (rt.encode signature) ++ (pushed (rt.encode key) ++ rest))
          []
        ≡ execute rt height msg k rest (rt.encode key ∷ rt.encode signature ∷ [])
  unlock_runs k signature key rest =
      execute-push (suc k) (rt.encode signature) (pushed (rt.encode key) ++ rest) [] (omega arith)
      ∙ execute-push k (rt.encode key) rest (rt.encode signature ∷ []) (omega arith)

  pub p2pkh_unlock-some :
      (signature key : String) {unlock : Bytes}
      → p2pkh_unlock rt signature key ≡ some unlock
      → pushed (rt.encode signature) ++ pushed (rt.encode key) ≡ unlock
  unfolding p2pkh_unlock push
  p2pkh_unlock-some signature key h = ground arith

  p2pkh_lock-some :
      (owner : String) {lock : Bytes}
      → p2pkh_lock rt owner ≡ some lock
      → tail_of (double_hash rt (rt.encode owner)) ≡ lock
  unfolding p2pkh_lock push
  p2pkh_lock-some owner h = ground arith

  -- For scripts that the builder makes from texts that decode to themselves: the unlocking script
  -- in front of the lock succeeds exactly if the key hashes to the owner's hash and the signature
  -- verifies under it, and fails with the reason of the first of these tests that does not hold.
  pub p2pkh_spends :
      (signature key owner : String) {unlock lock : Bytes}
      → p2pkh_unlock rt signature key ≡ some unlock
      → p2pkh_lock rt owner ≡ some lock
      → rt.decode (rt.encode signature) ≡ some signature
      → rt.decode (rt.encode key) ≡ some key
      → run rt height msg (unlock ++ lock)
        ≡ p2pkh_outcome signature key (double_hash rt (rt.encode owner))
  unfolding run
  p2pkh_spends signature key owner hu hl ds dk =
      rw
        (
          ← p2pkh_unlock-some signature key hu,
          ← p2pkh_lock-some owner hl,
          append_assoc (pushed (rt.encode signature)) (pushed (rt.encode key)),
        )
        (unlock_runs 200 signature key (tail_of (double_hash rt (rt.encode owner)))
          ∙ tail_runs 195 signature key (double_hash rt (rt.encode owner)) ds dk)

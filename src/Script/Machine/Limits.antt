-- ===== src/Script/Machine/Limits.antt =====
-- MAX_SCRIPT_OPS and the skipping of branches in `ScriptEngine.run`.
use border.Prelude.{
  ℕ, zero, suc, ◌≡◌, refl, ◌∙◌, true, some, [], ◌∷◌, ◌++◌, arith, ltb, leb, if◌then◌else◌,
}
use border.Runtime.{Runtime}
use border.Script.Op
use border.Script.Bytes.{Bytes}
use border.Script.Engine.{too_many_ops, finished, failed, push_on}
use border.Script.Machine.Templates.{execute-nil}
use border.Script.Machine.{skip, step, late_step, execute, run}

-- `n` opcodes that do nothing.
abbrev pub endifs : ℕ → Bytes
endifs zero = []
endifs (suc n) = Op.endif ∷ endifs n

module _ (rt : Runtime) (height : ℕ) (msg : Bytes) where
  execute-endifs :
      (k n : ℕ)
      → execute rt height msg k (endifs n ++ Op.true_ ∷ []) []
        ≡ (if ltb n k then finished true else failed too_many_ops)
  unfolding execute step late_step push_on
  execute-endifs zero zero = refl
  execute-endifs zero (suc n) = ground arith
  execute-endifs (suc k) zero = execute-nil rt height msg k ((1 ∷ []) ∷ []) ∙ ground arith
  execute-endifs (suc k) (suc n) = execute-endifs k n ∙ ground arith

  -- A script of n opcodes that do nothing and one OP_TRUE succeeds for n up to 201 and fails from
  -- 202 on.
  pub run_op_limit :
      (n : ℕ)
      → run rt height msg (endifs n ++ Op.true_ ∷ [])
        ≡ (if leb n 201 then finished true else failed too_many_ops)
  unfolding run
  run_op_limit n = execute-endifs 202 n ∙ ground arith

-- Behind a false OP_IF, the skip of a nested conditional with an OP_ELSE ends at the nested
-- OP_ENDIF.
pub skip_ends_inside :
    (rest : Bytes) → skip true 1 0 (Op.if_ ∷ Op.else_ ∷ Op.endif ∷ rest) ≡ some rest
unfolding skip
skip_ends_inside [] = refl
skip_ends_inside (b ∷ rest) = refl

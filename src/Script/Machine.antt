-- ===== src/Script/Machine.antt =====
-- `ScriptEngine.run`: one round of the loop, the skipped branches, and the whole run.
pub mod Limits
pub mod Templates
pub mod Timelock
mod Tests
use border.Prelude.{
  ℕ, zero, suc, ◌+◌, ◌-◌, Bool, true, false, not, ◌&&◌, ◌||◌, Option, none, some, List, [], ◌∷◌,
  ◌++◌, take, drop, ltb, leb, ◌==◌, if◌then◌else◌,
}
use border.Prelude.Int.{◌+ℤ◌, ◌-ℤ◌}
use border.Runtime.{Runtime}
use border.Script.Op
use border.Script.Bytes.{Bytes, bytes_eq, from_bytes, from_bytes_signed, to_bytes_signed}
use border.Script.Build.{double_hash}
use border.Script.Engine.{
  Failure, stack_overflow, too_many_ops, underflow_peek, exception, equalverify_failed, unspendable,
  empty_stack, locked_until, unknown_opcode, Outcome, finished, failed, Round, go_on, stop, truthy,
  of_bool, push_on, with_top, checksig, checkmultisig, max_script_ops,
}

-- The depth behind one opcode of a skipped branch. Behind a false OP_IF, OP_ELSE counts like
-- OP_ENDIF; behind OP_ELSE only OP_ENDIF does.
abbrev pub next_depth : Bool → ℕ → ℕ → ℕ
next_depth else_ends op depth =
    if op == Op.if_
    then depth + 1
    else (if (else_ends && op == Op.else_) || op == Op.endif then depth - 1 else depth)

-- The skipping loops of OP_IF and OP_ELSE: `count` bytes of a push are still to be passed over.
-- `none` is the IndexError of a push with no length.
unfoldable pub skip : Bool → ℕ → ℕ → Bytes → Option Bytes
skip else_ends zero count rest = some rest
skip else_ends (suc depth) count [] = some []
skip else_ends (suc depth) (suc count) (b ∷ rest) = skip else_ends (suc depth) count rest
skip else_ends (suc depth) zero (op ∷ []) = if op == Op.push then none else some []
skip else_ends (suc depth) zero (op ∷ n ∷ rest) = elim (op == Op.push) [
  | true ↦ skip else_ends (suc depth) n rest
  | false ↦ skip else_ends (next_depth else_ends op (suc depth)) zero (n ∷ rest)
]

abbrev pub resume : Option Bytes → List Bytes → Round
resume none stack = stop (failed exception)
resume (some rest) stack = go_on rest stack

abbrev pub push_number : Option Bytes → Bytes → List Bytes → Round
push_number none rest stack = stop (failed exception)
push_number (some b) rest stack = push_on b rest stack

-- OP_PUSH: the length, and then as many bytes as there are.
abbrev pub push_data : Bytes → List Bytes → Round
push_data [] stack = stop (failed exception)
push_data (n ∷ rest) stack = push_on (take n rest) (drop n rest) stack

abbrev pub check_lock : ℕ → Bytes → List Bytes → Round
check_lock block_height rest [] = stop (failed underflow_peek)
check_lock block_height rest (top ∷ stack) =
    if ltb block_height (from_bytes top)
    then stop (failed (locked_until (from_bytes top) block_height))
    else go_on rest (top ∷ stack)

abbrev pub duplicate : Bytes → List Bytes → Round
duplicate rest [] = stop (failed underflow_peek)
duplicate rest (top ∷ stack) = push_on top rest (top ∷ stack)

-- OP_IF on the popped condition.
abbrev pub enter_if : Bytes → Bytes → List Bytes → Round
enter_if rest cond stack =
    if truthy cond then go_on rest stack else resume (skip true 1 0 rest) stack

-- `a, b = self._pop(), self._pop()`
abbrev pub with_two : List Bytes → (Bytes → Bytes → List Bytes → Round) → Round
with_two stack k = with_top stack (λ a stack. with_top stack (λ b stack. k a b stack))

abbrev pub must_be_equal : Bytes → Bytes → Bytes → List Bytes → Round
must_be_equal rest a b stack =
    if bytes_eq a b then go_on rest stack else stop (failed equalverify_failed)

abbrev pub sum_of : Bytes → Bytes → Option Bytes
sum_of a b = to_bytes_signed (from_bytes_signed a +ℤ from_bytes_signed b)

abbrev pub difference_of : Bytes → Bytes → Option Bytes
difference_of a b = to_bytes_signed (from_bytes_signed a -ℤ from_bytes_signed b)

module _ (rt : Runtime) (block_height : ℕ) (msg : Bytes) where
  -- The opcodes from OP_CHECKSIG on, in the order of the source.
  unfoldable pub late_step : ℕ → Bytes → List Bytes → Round
  late_step op rest stack =
      if op == Op.checksig
      then checksig rt msg rest stack
      else if op == Op.checkmultisig
      then checkmultisig rt msg rest stack
      else if op == Op.claimtimeverify
      then check_lock block_height rest stack
      else if op == Op.return
      then stop (failed unspendable)
      else if op == Op.if_
      then with_top stack (enter_if rest)
      else if op == Op.else_
      then resume (skip false 1 0 rest) stack
      else if op == Op.endif
      then go_on rest stack
      else if leb 0x52 op && leb op 0x60
      then push_on ((op - 0x50) ∷ []) rest stack
      else stop (failed (unknown_opcode op))

  unfoldable pub step : ℕ → Bytes → List Bytes → Round
  step op rest stack =
      if op == Op.push
      then push_data rest stack
      else if op == Op.true_
      then push_on (1 ∷ []) rest stack
      else if op == Op.false_
      then push_on [] rest stack
      else if op == Op.dup
      then duplicate rest stack
      else if op == Op.drop
      then with_top stack (λ _ stack. go_on rest stack)
      else if op == Op.hash256
      then with_top stack (λ d stack. push_on (double_hash rt d) rest stack)
      else if op == Op.equal
      then with_two stack (λ a b stack. push_on (of_bool (bytes_eq a b)) rest stack)
      else if op == Op.equalverify
      then with_two stack (must_be_equal rest)
      else if op == Op.not
      then with_top stack (λ v stack. push_on (of_bool (not (truthy v))) rest stack)
      else if op == Op.add
      then with_two stack (λ a b stack. push_number (sum_of a b) rest stack)
      else if op == Op.sub
      then with_two stack (λ b a stack. push_number (difference_of a b) rest stack)
      else late_step op rest stack

  -- The result of the last lines of `run`.
  abbrev pub verdict : List Bytes → Outcome
  verdict [] = failed empty_stack
  verdict (top ∷ stack) = finished (truthy top)

  -- The loop, with the number of rounds that the test `ops > MAX_SCRIPT_OPS` still lets begin.
  unfoldable pub execute : ℕ → Bytes → List Bytes → Outcome
  execute rounds [] stack = verdict stack
  execute zero (op ∷ rest) stack = failed too_many_ops
  execute (suc rounds) (op ∷ rest) stack = elim (step op rest stack) [
    | go_on rest' stack' ↦ execute rounds rest' stack'
    | stop outcome ↦ outcome
  ]

  -- The test passes while `ops` is 0, 1, …, 201.
  unfoldable pub run : Bytes → Outcome
  run script = execute (suc max_script_ops) script []

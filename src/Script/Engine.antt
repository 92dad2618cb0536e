-- ===== src/Script/Engine.antt =====
-- `ScriptEngine`: the stack machine that runs a script.
use border.Prelude.{
  ℕ, zero, suc, String, Bool, true, false, none, some, List, [], ◌∷◌, length, ltb, leb,
  if◌then◌else◌,
}
use border.Runtime.{Runtime}
use border.Wallet.{verify}
use border.Script.Bytes.{Bytes}

abbrev pub max_stack_depth : ℕ
max_stack_depth = 64

abbrev pub max_script_ops : ℕ
max_script_ops = 201

-- Why a run fails. `exception` is any error that `except Exception` catches.
pub data Failure : Type 0 where
  too_many_ops stack_overflow underflow underflow_peek exception : Failure
  equalverify_failed invalid_signature unspendable empty_stack : Failure
  too_few_signatures : ℕ → ℕ → Failure
  locked_until : ℕ → ℕ → Failure
  unknown_opcode : ℕ → Failure

-- `finished b` is `(b, "")`, and `failed f` is `(False, reason)`.
pub data Outcome : Type 0 where
  finished : Bool → Outcome
  failed : Failure → Outcome

-- What one round of the loop does: the bytes that are left and the stack, its top first.
pub data Round : Type 0 where
  go_on : Bytes → List Bytes → Round
  stop : Outcome → Round

-- `v and v != b"\x00"`
abbrev pub truthy : Bytes → Bool
truthy [] = false
truthy (zero ∷ []) = false
truthy (x ∷ b) = true

abbrev pub of_bool : Bool → Bytes
of_bool true = 1 ∷ []
of_bool false = []

-- `self._push(b)`, and on with the script
unfoldable pub push_on : Bytes → Bytes → List Bytes → Round
push_on b rest stack =
    if leb max_stack_depth (length stack)
    then stop (failed stack_overflow)
    else go_on rest (b ∷ stack)

-- `self._pop()`
abbrev pub with_top : List Bytes → (Bytes → List Bytes → Round) → Round
with_top [] k = stop (failed underflow)
with_top (b ∷ stack) k = k b stack

-- The first byte of a count, or 0.
abbrev pub count_of : Bytes → ℕ
count_of [] = 0
count_of (n ∷ b) = n

-- `[self._pop().decode() for _ in range(n)]`
pub data Popped : Type 0 where
  popped : List String → List Bytes → Popped
  broken : Failure → Popped

module _ (rt : Runtime) where
  unfoldable pub pop_texts : ℕ → List Bytes → Popped
  pop_texts zero stack = popped [] stack
  pop_texts (suc n) [] = broken underflow
  pop_texts (suc n) (b ∷ stack) = elim (rt.decode b) [
    | none ↦ broken exception
    | some s ↦ elim (pop_texts n stack) [
      | popped ss stack' ↦ popped (s ∷ ss) stack'
      | broken f ↦ broken f
    ]
  ]

  -- The greedy match of the signatures against the keys: each key is tried once.
  unfoldable pub count_valid : Bytes → List String → List String → ℕ
  count_valid msg [] keys = 0
  count_valid msg (sig ∷ sigs) [] = 0
  count_valid msg (sig ∷ sigs) (key ∷ keys) = elim (verify rt key msg sig) [
    | true ↦ suc (count_valid msg sigs keys)
    | false ↦ count_valid msg (sig ∷ sigs) keys
  ]

  unfoldable pub checksig : Bytes → Bytes → List Bytes → Round
  checksig msg rest stack = with_top stack λ pub_bytes stack. with_top stack λ sig_bytes stack.
      elim (rt.decode pub_bytes) [
        | none ↦ stop (failed exception)
        | some key ↦ elim (rt.decode sig_bytes) [
          | none ↦ stop (failed exception)
          | some sig ↦
              if verify rt key msg sig
              then push_on (1 ∷ []) rest stack
              else stop (failed invalid_signature)
        ]
      ]

  -- The dummy that stands under the signatures, if there is one.
  abbrev pub without_dummy : List Bytes → List Bytes
  without_dummy [] = []
  without_dummy (b ∷ stack) = stack

  unfoldable pub checkmultisig : Bytes → Bytes → List Bytes → Round
  checkmultisig msg rest stack = with_top stack λ n_byte stack.
      elim (pop_texts (count_of n_byte) stack) [
        | broken f ↦ stop (failed f)
        | popped keys stack ↦ with_top stack λ m_byte stack.
            elim (pop_texts (count_of m_byte) stack) [
              | broken f ↦ stop (failed f)
              | popped sigs stack ↦
                  let found = count_valid msg sigs keys in
                  if ltb found (count_of m_byte)
                  then stop (failed (too_few_signatures found (count_of m_byte)))
                  else push_on (1 ∷ []) rest (without_dummy stack)
            ]
      ]

-- ===== src/Chain/Balance/Laws.antt =====
-- The balance cache of border/blockchain/chain.py, address by address and in sum.
use border.Prelude.{
  String, ◌≡◌, ◌≢◌, refl, false, not, List, [], ◌∷◌, map, keep, All, str_eq, eq_iff, arith,
  if◌then◌else◌, Bool-cases, inl, inr,
}
use border.Prelude.Int.{ℤ, pos, ◌+ℤ◌, ◌-ℤ◌, int_laws}
use border.Prelude.Dict.{Dict, put, get_or, get_or-put, values}
use border.Transaction.{Transaction, is_coinbase, is_empty}
use border.Block.{sum_ℤ, minted}
use border.Chain.Balance.{
  Sign, plus, minus, signed, opposite, shift, credit, debit, pays, apply_tx_to_cache, apply_txs,
}

balance-shift :
    (sign : Sign) (a j : String) (x : ℤ) (d : Dict ℤ)
    → get_or j (pos 0) (shift sign a x d)
      ≡ (if str_eq a j then signed sign (get_or j (pos 0) d) x else get_or j (pos 0) d)
unfolding shift
balance-shift sign a j x d = elim (Bool-cases (str_eq a j)) [
  | inl e ↦ rw (get_or-put, e) (let p : a ≡ j = (eq_iff a j).0 e in rw p)
  | inr e ↦ rw (get_or-put, e)
]

balance-credit :
    (sign : Sign) (tx : Transaction) (j : String) (d : Dict ℤ)
    → get_or j (pos 0) (credit sign tx d) ≡ (
        if is_empty tx.to_address
        then get_or j (pos 0) d
        else (if str_eq tx.to_address j
            then signed sign (get_or j (pos 0) d) tx.amount
            else get_or j (pos 0) d))
unfolding credit
balance-credit sign tx j d = ground (arith, balance-shift sign tx.to_address j tx.amount d)

balance-debit :
    (sign : Sign) (tx : Transaction) (j : String) (d : Dict ℤ)
    → get_or j (pos 0) (debit sign tx d) ≡ (
        if pays tx
        then (if str_eq tx.from_address j
            then signed (opposite sign) (get_or j (pos 0) d) (tx.amount +ℤ tx.fee)
            else get_or j (pos 0) d)
        else get_or j (pos 0) d)
unfolding debit
balance-debit sign tx j d =
    ground (arith, balance-shift (opposite sign) tx.from_address j (tx.amount +ℤ tx.fee) d)

-- Applying a transaction and then undoing it leaves the balance of every address as it was.
pub apply_tx_to_cache_undo :
    (tx : Transaction) (j : String) (d : Dict ℤ)
    → get_or j (pos 0) (apply_tx_to_cache tx minus (apply_tx_to_cache tx plus d))
      ≡ get_or j (pos 0) d
unfolding apply_tx_to_cache
apply_tx_to_cache_undo tx j d = simp (balance-debit, balance-credit) (grind int_laws)

-- What one transaction does to the balance of an address that is not its sender.
pub balance_apply :
    (tx : Transaction) (j : String) (d : Dict ℤ)
    → tx.from_address ≢ j
    → get_or j (pos 0) (apply_tx_to_cache tx plus d) ≡ (
        if is_empty tx.to_address
        then get_or j (pos 0) d
        else (if str_eq tx.to_address j
            then get_or j (pos 0) d +ℤ tx.amount
            else get_or j (pos 0) d))
unfolding apply_tx_to_cache
balance_apply tx j d ne =
    simp (balance-debit, balance-credit) (ground (arith, eq_iff tx.from_address j))

-- The sum of all balances.
abbrev pub sum_values : Dict ℤ → ℤ
sum_values d = sum_ℤ (values d)

sum_values-put :
    (k : String) (v : ℤ) (d : Dict ℤ)
    → sum_values (put k v d) +ℤ get_or k (pos 0) d ≡ sum_values d +ℤ v
unfolding put get_or
sum_values-put k v [] = omega int_laws
sum_values-put k v ((j, w) ∷ d) = grind (int_laws, sum_values-put k v d)

sum_values-shift :
    (sign : Sign) (a : String) (x : ℤ) (d : Dict ℤ)
    → sum_values (shift sign a x d) ≡ signed sign (sum_values d) x
unfolding shift
sum_values-shift plus a x d = grind (int_laws, sum_values-put a (get_or a (pos 0) d +ℤ x) d)
sum_values-shift minus a x d = grind (int_laws, sum_values-put a (get_or a (pos 0) d -ℤ x) d)

-- Every transaction of the list names a receiver, and a sender unless it is a coinbase.
abbrev pub HasParties : Transaction → Type 0
HasParties tx = (is_empty tx.to_address ≡ false) × (is_empty tx.from_address ≡ false)

abbrev pub fees : List Transaction → ℤ
fees txs = sum_ℤ (map (λ tx. tx.fee) (keep (λ tx. not (is_coinbase tx)) txs))

sum_values-apply_tx :
    (tx : Transaction) (d : Dict ℤ)
    → HasParties tx
    → sum_values (apply_tx_to_cache tx plus d) +ℤ (if is_coinbase tx then pos 0 else tx.fee)
      ≡ sum_values d +ℤ (if is_coinbase tx then tx.amount else pos 0)
unfolding apply_tx_to_cache credit debit
sum_values-apply_tx tx d h = grind (
  int_laws,
  sum_values-shift plus tx.to_address tx.amount d,
  sum_values-shift minus tx.from_address (tx.amount +ℤ tx.fee)
      (shift plus tx.to_address tx.amount d),
)

-- For transactions that name a sender and a receiver, the sum of the balances and of the fees
-- afterwards is the sum of the balances before and of what coinbases mint.
pub apply_txs_conserve :
    (txs : List Transaction) (d : Dict ℤ)
    → All HasParties txs
    → sum_values (apply_txs txs d) +ℤ fees txs ≡ sum_values d +ℤ minted txs
unfolding apply_txs
apply_txs_conserve [] d h = refl
apply_txs_conserve (tx ∷ txs) d h = grind (
  int_laws,
  sum_values-apply_tx tx d h.0,
  apply_txs_conserve txs (apply_tx_to_cache tx plus d) h.1,
)

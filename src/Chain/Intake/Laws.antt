-- ===== src/Chain/Intake/Laws.antt =====
-- The reservations of the mempool, and what the intake lets through.
use border.Prelude.{
  String, ◌≡◌, ◌≢◌, ◌↔◌, ◌⊎◌, true, false, List, [], ◌∷◌, ◌++◌, str_eq, eq_iff, arith,
  if◌then◌else◌,
}
use border.Prelude.Int.{ℤ, pos, ◌+ℤ◌, ◌-ℤ◌, ◌≤ℤ◌, ◌<ℤ◌, max_ℤ, int_laws}
use border.Prelude.Dict.{Dict, get_or, get_or-put}
use border.Runtime.{Runtime}
use border.Economics.{min_fee_per_tx}
use border.Transaction.{Transaction, verify_tx, validate_fee, is_coinbase, is_empty}
use border.Chain.{Chain, Stake, get_balance}
use border.Chain.Balance.{plus, apply_tx_to_cache}
use border.Chain.Balance.Laws.{balance_apply}
use border.Chain.Intake.{add_transaction, cost, reserved}

-- What the mempool takes from an address.
abbrev pub pending_cost : String → List Transaction → ℤ
pending_cost a [] = pos 0
pending_cost a (tx ∷ txs) =
    if str_eq tx.from_address a then cost tx +ℤ pending_cost a txs else pending_cost a txs

pending_cost-append :
    (a : String) (txs : List Transaction) (tx : Transaction)
    → pending_cost a (txs ++ tx ∷ [])
      ≡ (if str_eq tx.from_address a then pending_cost a txs +ℤ cost tx else pending_cost a txs)
pending_cost-append a [] tx = grind int_laws
pending_cost-append a (t ∷ txs) tx = grind (int_laws, pending_cost-append a txs tx)

-- The reservation of every address is what the mempool takes from it, and is covered by its
-- balance, or is nothing.
pub record IsReserved (c : Chain) : Type 0 where
  pub exact : (a : String) → reserved a c ≡ pending_cost a c.mempool
  pub covered : (a : String) → reserved a c ≤ℤ max_ℤ (pos 0) (get_balance a c)

-- When the reservation of every address is what the mempool takes from it and within its balance,
-- or nothing, then so it is after `add_transaction`, whether the transaction is accepted or not.
pub add_transaction-IsReserved :
    (rt : Runtime) (tx : Transaction) (c : Chain)
    → IsReserved c
    → IsReserved (add_transaction rt tx c).1
unfolding add_transaction get_balance
add_transaction-IsReserved rt tx c h = record {
  exact = λ a. grind (
    int_laws,
    get_or-put,
    pending_cost-append,
    h.exact a,
    h.exact tx.from_address,
    eq_iff tx.from_address a,
  );
  covered = λ a. grind (int_laws, get_or-put, h.covered a, eq_iff tx.from_address a);
}

-- `add_transaction` accepts exactly the transactions that verify, come from the coinbase address or
-- have a fee of at least the floor, and whose amount and fee together are covered by the balance of
-- the sender less what is reserved of it. An accepted one stands last in the pool, where its whole
-- cost is reserved, and a refused one leaves the chain as it is.
pub add_transaction_accepts_iff :
    (rt : Runtime) (tx : Transaction) (c : Chain)
    → (((add_transaction rt tx c).0 ≡ true) ↔ (
        (verify_tx rt tx ≡ true)
        × ((is_coinbase tx ≡ true) ⊎ (pos min_fee_per_tx ≤ℤ tx.fee))
        × (tx.amount +ℤ tx.fee ≤ℤ get_balance tx.from_address c -ℤ reserved tx.from_address c)))
      × ((add_transaction rt tx c).0 ≡ true
          → ((add_transaction rt tx c).1.mempool ≡ c.mempool ++ tx ∷ [])
            × (reserved tx.from_address (add_transaction rt tx c).1
                ≡ reserved tx.from_address c +ℤ (tx.amount +ℤ tx.fee)))
      × ((add_transaction rt tx c).0 ≡ false → (add_transaction rt tx c).1 ≡ c)
unfolding add_transaction validate_fee
add_transaction_accepts_iff rt tx c = (
  (λ h. ground arith, λ h. ground arith),
  λ h. ground (
    arith,
    get_or-put tx.from_address tx.from_address (pos 0) (reserved tx.from_address c +ℤ cost tx)
        c.mempool_reserved,
    eq_iff tx.from_address tx.from_address,
  ),
  λ h. ground arith,
)

-- Whatever the stakes are, `add_transaction` decides alike.
pub add_transaction_ignores_stakes :
    (rt : Runtime) (tx : Transaction) (c : Chain) (stakes : Dict Stake)
    → (add_transaction rt tx (record c { stakes = stakes })).0 ≡ (add_transaction rt tx c).0
unfolding add_transaction get_balance
add_transaction_ignores_stakes rt tx c stakes = ground arith

-- A transaction of a negative amount that verifies, pays the fee floor and is covered, between two
-- addresses that differ, is accepted, and applying it lowers the balance of its receiver.
pub negative_amount_accepted :
    (rt : Runtime) (tx : Transaction) (c : Chain)
    → verify_tx rt tx ≡ true
    → pos min_fee_per_tx ≤ℤ tx.fee
    → tx.amount <ℤ pos 0
    → cost tx ≤ℤ get_balance tx.from_address c -ℤ reserved tx.from_address c
    → is_empty tx.to_address ≡ false
    → tx.from_address ≢ tx.to_address
    → ((add_transaction rt tx c).0 ≡ true)
      × (get_or tx.to_address (pos 0) (apply_tx_to_cache tx plus c.balance_cache)
          <ℤ get_balance tx.to_address c)
unfolding add_transaction validate_fee get_balance
negative_amount_accepted rt tx c v f n enough to ne = (
  ground arith,
  grind (
    int_laws,
    balance_apply tx tx.to_address c.balance_cache ne,
    eq_iff tx.to_address tx.to_address,
  ),
)

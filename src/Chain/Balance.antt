-- ===== src/Chain/Balance.antt =====
-- The balance cache: one transaction at a time, and rebuilt from the blocks.
pub mod Laws
use border.Prelude.{String, Bool, not, ◌&&◌, List, [], ◌∷◌, if◌then◌else◌}
use border.Prelude.Int.{ℤ, pos, ◌+ℤ◌, ◌-ℤ◌}
use border.Prelude.Dict.{Dict, put, get_or}
use border.Transaction.{Transaction, is_coinbase, is_empty}
use border.Block.{Block}
use border.Chain.{Chain, blocks}

-- `sign` of `_apply_tx_to_cache`: +1 applies and -1 undoes.
pub data Sign : Type 0 where
  plus minus : Sign

abbrev pub signed : Sign → ℤ → ℤ → ℤ
signed plus balance amount = balance +ℤ amount
signed minus balance amount = balance -ℤ amount

abbrev pub opposite : Sign → Sign
opposite plus = minus
opposite minus = plus

-- Add `amount`, with the sign, to the balance of an address.
unfoldable pub shift : Sign → String → ℤ → Dict ℤ → Dict ℤ
shift sign address amount cache =
    put address (signed sign (get_or address (pos 0) cache) amount) cache

abbrev pub pays : Transaction → Bool
pays tx = not (is_empty tx.from_address) && not (is_coinbase tx)

unfoldable pub credit : Sign → Transaction → Dict ℤ → Dict ℤ
credit sign tx cache =
    if is_empty tx.to_address then cache else shift sign tx.to_address tx.amount cache

unfoldable pub debit : Sign → Transaction → Dict ℤ → Dict ℤ
debit sign tx cache =
    if pays tx then shift (opposite sign) tx.from_address (tx.amount +ℤ tx.fee) cache else cache

-- The second balance is read after the first was written.
unfoldable pub apply_tx_to_cache : Transaction → Sign → Dict ℤ → Dict ℤ
apply_tx_to_cache tx sign cache = debit sign tx (credit sign tx cache)

unfoldable pub apply_txs : List Transaction → Dict ℤ → Dict ℤ
apply_txs [] cache = cache
apply_txs (tx ∷ txs) cache = apply_txs txs (apply_tx_to_cache tx plus cache)

unfoldable pub apply_blocks : List Block → Dict ℤ → Dict ℤ
apply_blocks [] cache = cache
apply_blocks (b ∷ bs) cache = apply_blocks bs (apply_txs b.transactions cache)

unfoldable pub rebuild_balance_cache : Chain → Chain
rebuild_balance_cache c = record c { balance_cache = apply_blocks (blocks c) [] }

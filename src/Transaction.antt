-- ===== src/Transaction.antt =====
-- border/blockchain/transaction.py: transfers, the coinbase, and what makes one valid.
pub mod Codec
pub mod Verify
mod Tests
use Prim.Native.String.{slice, ◌++◌}
use border.Prelude.{
  ℕ, String, Bool, true, false, not, ◌&&◌, ◌||◌, Option, none, some, List, str_eq, if◌then◌else◌,
}
use border.Prelude.Int.{ℤ, pos, leb_ℤ}
use border.Runtime.{
  Runtime, Json, coins, seconds, text, null, object, Fields, end, field, find_or, text_or_null,
}
use border.Decoding.{Decoded, read, required, as_coins, as_seconds, as_text, as_text?, ◌>>=◌}
use border.Wallet.{Wallet, sign, verify, key_matches_address}
use border.Economics.{min_fee_per_tx}

pub record Transaction : Type 0 where
  pub tx_id : String
  pub from_address : String
  pub to_address : String
  pub amount : ℤ
  pub fee : ℤ
  pub timestamp : ℕ
  pub public_key : String
  pub signature : Option String

-- 0.001 BC
abbrev pub tx_fee : ℤ
tx_fee = pos 100_000

abbrev pub coinbase_address : String
coinbase_address = "BC_COINBASE_00000000000000000000000000000000"

abbrev pub is_coinbase : Transaction → Bool
is_coinbase tx = str_eq tx.from_address coinbase_address

-- `tx_id` is the fresh `tx_<uuid>`, and `now` the clock.
unfoldable pub create :
    (tx_id : String) (now : ℕ) → String → String → ℤ → String → Option ℤ → Transaction
create tx_id now from_address to_address amount public_key fee = record {
  tx_id = tx_id;
  from_address = from_address;
  to_address = to_address;
  amount = amount;
  fee = elim fee [ none ↦ tx_fee | some f ↦ f ];
  timestamp = now;
  public_key = public_key;
  signature = none;
}

-- The dictionary that `signing_data` and `hash` print.
signed_fields : Transaction → Json
signed_fields tx = object (
    field "tx_id" (text tx.tx_id) (
      field "from_address" (text tx.from_address) (
        field "to_address" (text tx.to_address) (
          field "amount" (coins tx.amount)
            (field "fee" (coins tx.fee) (field "timestamp" (seconds tx.timestamp) end))))))

-- `if not text`
abbrev pub is_empty : String → Bool
is_empty s = str_eq s ""

abbrev pub is_blank : Option String → Bool
is_blank none = true
is_blank (some s) = is_empty s

module _ (rt : Runtime) where
  -- With a `deterministic_id`, which every call of the block and of the chain passes.
  unfoldable pub coinbase : String → ℤ → String → Transaction
  coinbase to_address reward deterministic_id = record {
    tx_id =
        "cb_"
        ++ slice
            (rt.hex (
              rt.sha256
                (rt.encode (to_address ++ ":" ++ rt.show_coins reward ++ ":" ++ deterministic_id))))
            0 16;
    from_address = coinbase_address;
    to_address = to_address;
    amount = reward;
    fee = pos 0;
    timestamp = 0;
    public_key = "";
    signature = some "COINBASE";
  }

  unfoldable pub signing_data : Transaction → List ℕ
  unfolding signed_fields
  signing_data tx = rt.encode (rt.dumps (signed_fields tx))

  unfoldable pub sign_with : Wallet → Transaction → Transaction
  unfolding sign signing_data
  sign_with wallet tx = record tx { signature = some (sign rt wallet (signing_data tx)) }

  unfoldable pub verify_tx : Transaction → Bool
  unfolding key_matches_address verify signing_data
  verify_tx tx = elim tx.signature [
    | none ↦ false
    | some signature ↦
        if is_coinbase tx
        then str_eq signature "COINBASE"
        else (if is_empty signature || is_empty tx.public_key
            then false
            else (if key_matches_address rt tx.public_key tx.from_address
                then verify rt tx.public_key (signing_data tx) signature
                else false))
  ]

  unfoldable pub hash : Transaction → String
  unfolding signed_fields
  hash tx = rt.hex (rt.sha256 (rt.encode (rt.dumps (signed_fields tx))))

-- `validate_fee` of economics.py
unfoldable pub validate_fee : Transaction → Bool
validate_fee tx = if is_coinbase tx then true else leb_ℤ (pos min_fee_per_tx) tx.fee

unfoldable pub to_dict : Transaction → Fields
to_dict tx = field "tx_id" (text tx.tx_id) (
    field "from_address" (text tx.from_address) (
      field "to_address" (text tx.to_address) (
        field "amount" (coins tx.amount) (
          field "fee" (coins tx.fee) (
            field "timestamp" (seconds tx.timestamp) (
              field "public_key" (text tx.public_key)
                (field "signature" (text_or_null tx.signature) end)))))))

unfoldable pub from_dict : Fields → Decoded Transaction
from_dict d = do
  tx_id ← required "tx_id" d >>= as_text
  from_address ← required "from_address" d >>= as_text
  to_address ← required "to_address" d >>= as_text
  amount ← required "amount" d >>= as_coins
  fee ← required "fee" d >>= as_coins
  timestamp ← required "timestamp" d >>= as_seconds
  public_key ← as_text (find_or "public_key" (text "") d)
  signature ← as_text? (find_or "signature" null d)
  read (record {
    tx_id = tx_id;
    from_address = from_address;
    to_address = to_address;
    amount = amount;
    fee = fee;
    timestamp = timestamp;
    public_key = public_key;
    signature = signature;
  })

-- ===== src/Transaction/Verify.antt =====
-- Signing and then verifying a transfer.
use border.Prelude.{ℕ, String, true, false, ◌≡◌, Option, some, List, str_eq, eq_iff}
use border.Prelude.Int.{ℤ}
use border.Runtime.{Runtime}
use border.Wallet.{Wallet, sign, verify, derive_address, key_matches_address}
use border.Transaction.{create, sign_with, verify_tx, signing_data, is_empty, coinbase_address}

module _ (rt : Runtime) where
  -- For a wallet whose address derives from its public key and is not the coinbase's, and whose
  -- signatures are not empty, decode to what was signed and pass the check of that key: a transfer
  -- that the wallet creates and signs verifies, whatever its receiver, amount and fee.
  pub sign_with_verifies :
      (wallet : Wallet) (pub_bytes : List ℕ)
      → rt.b64decode wallet.public_key_b64 ≡ some pub_bytes
      → wallet.address ≡ derive_address rt pub_bytes
      → str_eq wallet.address coinbase_address ≡ false
      → is_empty wallet.public_key_b64 ≡ false
      → ((message : List ℕ) → is_empty (sign rt wallet message) ≡ false)
      → ((message : List ℕ)
          → rt.b64decode (sign rt wallet message)
            ≡ some (rt.ed25519_sign wallet.private_key message))
      → ((message : List ℕ)
          → rt.ed25519_verify pub_bytes (rt.ed25519_sign wallet.private_key message) message ≡ true)
      → (tx_id : String) (now : ℕ) (to_address : String) (amount : ℤ) (fee : Option ℤ)
      → verify_tx rt (
          sign_with rt wallet
            (create tx_id now wallet.address to_address amount wallet.public_key_b64 fee))
        ≡ true
  unfolding verify_tx sign_with create verify key_matches_address sign signing_data
  sign_with_verifies wallet pub_bytes key derived other named written back passes tx_id now
        to_address amount fee =
      let address_ok : str_eq (derive_address rt pub_bytes) wallet.address ≡ true =
        (eq_iff (derive_address rt pub_bytes) wallet.address).1 (cc derived) in
      rw (other, written, named, key_matches_address, verify, key, address_ok, back, passes)

-- ===== src/Wallet.antt =====
-- border/blockchain/wallet.py: the wallet as the rest of the program uses it, the address that a
-- public key derives to, and the signature check.
use Prim.Native.String.{slice, ◌++◌}
use border.Prelude.{ℕ, String, Bool, false, none, some, List, str_eq}
use border.Runtime.{Runtime}

-- `BorderWallet`: the key pair, the address and the base64 text of the public key.
pub record Wallet : Type 0 where
  pub private_key : List ℕ
  pub address : String
  pub public_key_b64 : String

module _ (rt : Runtime) where
  open rt use {sha256, hex, b64decode, b64encode, ed25519_verify, ed25519_sign}

  -- "BC_" + sha256(pub_bytes).hexdigest()[:32]
  unfoldable pub derive_address : List ℕ → String
  derive_address pub_bytes = "BC_" ++ slice (hex (sha256 pub_bytes)) 0 32

  -- `BorderWallet.sign`
  unfoldable pub sign : Wallet → List ℕ → String
  sign wallet message = b64encode (ed25519_sign wallet.private_key message)

  -- `BorderWallet.verify`: an exception of the decoding is `False`.
  unfoldable pub verify : String → List ℕ → String → Bool
  verify public_key_b64 message signature_b64 = elim (b64decode public_key_b64) [
    | none ↦ false
    | some pub_bytes ↦ elim (b64decode signature_b64) [
      | none ↦ false
      | some sig_bytes ↦ ed25519_verify pub_bytes sig_bytes message
    ]
  ]

  -- The check of `Transaction` and of both proof records that a public key derives to an address.
  unfoldable pub key_matches_address : String → String → Bool
  unfolding derive_address
  key_matches_address public_key address = elim (b64decode public_key) [
    | none ↦ false
    | some pub_bytes ↦ str_eq (derive_address pub_bytes) address
  ]

-- ===== src/Transaction/Tests.antt =====
-- A signed transfer that verifies.
use border.Prelude.{◌≡◌, refl, true, none, []}
use border.Prelude.Int.{pos}
use border.Wallet.{Wallet, sign, derive_address}
use border.Transaction.{create, sign_with, verify_tx}
use border.Transaction.Verify.{sign_with_verifies}
use border.Samples.{toy}

abbrev owner : Wallet
owner = record { private_key = []; address = "BC_h"; public_key_b64 = "k" }

sign_with_verifies_example :
    verify_tx toy (sign_with toy owner (create "tx_9" 5 "BC_h" "BC_b" (pos 3) "k" none)) ≡ true
sign_with_verifies_example =
    sign_with_verifies toy owner [] refl (unfold derive_address in refl) refl refl
      (λ message. unfold sign in refl) (λ message. refl) (λ message. refl) "tx_9" 5 "BC_b" (pos 3)
      none

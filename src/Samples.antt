-- ===== src/Samples.antt =====
-- Concrete values for the examples: a runtime of constant functions, a proof, a transaction, and a
-- chain of one block with a second block that it produces.
use border.Prelude.{ap, ◌≡◌, refl, zero, suc, true, none, some, [], ◌∷◌, str_eq, if◌then◌else◌}
use border.Prelude.Int.{pos}
use border.Runtime.{Runtime}
use border.Transaction.{Transaction}
use border.Proofs.{BandwidthProof, verify_bandwidth}
use border.Block.{Block, genesis, finalize}
use border.Chain.{Chain, total_supply}
use border.Wallet.{verify, key_matches_address, derive_address}
use border.Chain.Validate.{valid, validate_block, compute_next_difficulty, expected_difficulty}
use border.Chain.Produce.{unsealed_block, create_block, decided, add_block}
use border.Chain.Produce.Laws.{create_block_accepted}
use border.Chain.Reorg.Laws.{verdict_of}

-- Texts are told apart by one byte; every digest prints as "h"; every signature passes.
abbrev pub toy : Runtime
toy = record {
  dumps = λ j. "j";
  encode = λ s. (if str_eq s "k" then 2 else (if str_eq s "s" then 1 else 0)) ∷ [];
  decode = λ b. elim b [
    | [] ↦ none
    | x ∷ xs ↦ elim x [ zero ↦ some "" | suc y ↦ elim y [ zero ↦ some "s" | suc z ↦ some "k" ] ]
  ];
  sha256 = λ b. b;
  hex = λ b. "h";
  b64decode = λ s. some [];
  b64encode = λ b. "s";
  ed25519_verify = λ key signature message. true;
  ed25519_sign = λ key message. [];
  lower = λ s. s;
  strip = λ s. s;
  is_alnum = λ c. true;
  show_int = λ n. "0";
  show_coins = λ z. "0";
  show_seconds = λ t. "0";
  show_coins_8 = λ z. "0";
}

abbrev pub relayed : BandwidthProof
relayed = record {
  receipt_id = "r1";
  relay_address = "BC_h";
  client_id = "c1";
  bytes_forwarded = 1_048_576;
  timestamp = 5;
  session_id = "s1";
  relay_signature = "s";
  relay_public_key = "k";
  client_signature = none;
}

abbrev pub payment : Transaction
payment = record {
  tx_id = "tx_1";
  from_address = "BC_h";
  to_address = "BC_b";
  amount = pos 7;
  fee = pos 100_000;
  timestamp = 5;
  public_key = "k";
  signature = some "s";
}

-- A chain of the genesis block, with one proof in its pool and a funded address.
abbrev pub ready : Chain
ready = record {
  first = genesis toy;
  later = [];
  mempool = [];
  pending_proofs = relayed ∷ [];
  pending_compute_proofs = [];
  pending_storage_proofs = [];
  spent_receipts = [];
  spent_compute_proofs = [];
  spent_storage_proofs = [];
  mempool_reserved = [];
  balance_cache = ("BC_h", pos 500_000_000) ∷ [];
  stakes = [];
  slash_log = [];
}

abbrev pub made : Block
made = finalize toy (total_supply ready) (unsealed_block toy "BC_h" [] [] 5 ready)

pub made-is : create_block toy "BC_h" [] [] 5 ready ≡ some made
unfolding create_block compute_next_difficulty expected_difficulty genesis
made-is = refl

pub relayed-is_signed : verify_bandwidth toy relayed ≡ true
unfolding verify_bandwidth verify key_matches_address derive_address
relayed-is_signed = refl

pub made-is_valid : validate_block toy ready made ≡ valid
unfolding decided add_block
made-is_valid = verdict_of toy (validate_block toy ready made) made ready (
    ap (λ r. r.0)
      (create_block_accepted toy "BC_h" [] [] 5 ready made-is (relayed-is_signed, tt) tt))

-- ===== src/Dao/Treasury.antt =====
-- border/dao/treasury.py: what the treasury collects and spends, and its rates.
pub mod Books
use border.Prelude.{
  ℕ, ◌+◌, ◌*◌, String, Bool, true, false, ◌&&◌, List, [], ◌∷◌, ◌++◌, map, str_eq, leb, ltb,
  if◌then◌else◌,
}
use border.Prelude.Int.{ℤ, pos, ◌+ℤ◌, ◌-ℤ◌, leb_ℤ, ltb_ℤ, pos_part}
use border.Prelude.Round.{round_half_even}
use border.Block.{sum_ℤ}

pub record Entry : Type 0 where
  pub entry_id : String
  pub source : String
  pub amount_bc : ℤ
  pub from_address : String
  pub timestamp : ℕ
  pub note : String

pub record Spend : Type 0 where
  pub spend_id : String
  pub proposal_id : String
  pub recipient : String
  pub amount_bc : ℤ
  pub executed_at : ℕ
  pub note : String

-- A rate is a number of units of 10^-8.
pub record Treasury : Type 0 where
  pub balance : ℤ
  pub income : List Entry
  pub spending : List Spend
  pub tx_fee_pct : ℤ
  pub compute_fee_pct : ℤ
  pub storage_fee_pct : ℤ
  pub infer_fee_pct : ℤ
  pub render_fee_pct : ℤ

unfoldable pub initial_treasury : Treasury
initial_treasury = record {
  balance = pos 0;
  income = [];
  spending = [];
  tx_fee_pct = pos 1_000_000;
  compute_fee_pct = pos 500_000;
  storage_fee_pct = pos 500_000;
  infer_fee_pct = pos 500_000;
  render_fee_pct = pos 500_000;
}

-- `collect`, with the fresh id and the clock.
unfoldable pub collect :
    (entry_id : String) (now : ℕ) → String → ℤ → String → String → Treasury → ℤ × Treasury
collect entry_id now source amount_bc from_address note t =
    if leb_ℤ amount_bc (pos 0) then (pos 0, t) else (
      amount_bc,
      record t {
        income =
            t.income
            ++ record {
              entry_id = entry_id;
              source = source;
              amount_bc = amount_bc;
              from_address = from_address;
              timestamp = now;
              note = note;
            }
              ∷ [];
        balance = t.balance +ℤ amount_bc;
      },
    )

-- `round(amount * rate, 8)`. `collect` takes a product below zero as it takes 0.
abbrev pub share : ℤ → ℤ → ℤ
share amount rate =
    if leb_ℤ (pos 0) amount && leb_ℤ (pos 0) rate
    then pos (round_half_even (pos_part amount * pos_part rate) 100_000_000)
    else pos 0

unfoldable pub collect_tx_fee : String → ℕ → ℤ → String → Treasury → ℤ × Treasury
collect_tx_fee id now amount from t = collect id now "tx_fee" (share amount t.tx_fee_pct) from "" t

unfoldable pub collect_compute_fee : String → ℕ → ℤ → String → Treasury → ℤ × Treasury
collect_compute_fee id now amount from t =
    collect id now "compute" (share amount t.compute_fee_pct) from "" t

unfoldable pub collect_storage_fee : String → ℕ → ℤ → String → Treasury → ℤ × Treasury
collect_storage_fee id now amount from t =
    collect id now "storage" (share amount t.storage_fee_pct) from "" t

unfoldable pub collect_infer_fee : String → ℕ → ℤ → String → Treasury → ℤ × Treasury
collect_infer_fee id now amount from t =
    collect id now "infer" (share amount t.infer_fee_pct) from "" t

unfoldable pub collect_render_fee : String → ℕ → ℤ → String → Treasury → ℤ × Treasury
collect_render_fee id now amount from t =
    collect id now "render" (share amount t.render_fee_pct) from "" t

-- `spend`, with the fresh id and the clock; the reply is whether it paid.
unfoldable pub spend :
    (spend_id : String) (now : ℕ) → String → String → ℤ → String → Treasury → Bool × Treasury
spend spend_id now proposal_id recipient amount_bc note t =
    if ltb_ℤ t.balance amount_bc then (false, t) else (
      true,
      record t {
        spending =
            t.spending
            ++ record {
              spend_id = spend_id;
              proposal_id = proposal_id;
              recipient = recipient;
              amount_bc = amount_bc;
              executed_at = now;
              note = note;
            }
              ∷ [];
        balance = t.balance -ℤ amount_bc;
      },
    )

unfoldable pub apply_parameter : String → ℤ → Treasury → Treasury
apply_parameter key value t =
    if str_eq key "tx_fee_pct"
    then record t { tx_fee_pct = value }
    else if str_eq key "compute_fee_pct"
    then record t { compute_fee_pct = value }
    else if str_eq key "storage_fee_pct"
    then record t { storage_fee_pct = value }
    else if str_eq key "infer_fee_pct"
    then record t { infer_fee_pct = value }
    else if str_eq key "render_fee_pct"
    then record t { render_fee_pct = value }
    else t

abbrev pub total_collected : Treasury → ℤ
total_collected t = sum_ℤ (map (λ e. e.amount_bc) t.income)

abbrev pub total_spent : Treasury → ℤ
total_spent t = sum_ℤ (map (λ s. s.amount_bc) t.spending)

-- One call of the treasury. The fees by source are calls of `collect`.
pub data Step (t : Treasury) : Treasury → Type 0 where
  collects :
      (entry_id : String) (now : ℕ) (source : String) (amount : ℤ) (from note : String)
      → Step t (collect entry_id now source amount from note t).1
  spends :
      (spend_id : String) (now : ℕ) (proposal_id recipient : String) (amount : ℤ) (note : String)
      → Step t (spend spend_id now proposal_id recipient amount note t).1
  sets : (key : String) (value : ℤ) → Step t (apply_parameter key value t)

pub data Reach : Treasury → Type 0 where
  start : Reach initial_treasury
  next : {t t' : Treasury} → Reach t → Step t t' → Reach t'

-- ===== src/Dao/Governance.antt =====
-- border/dao/governance.py: `GovernanceEngine`. A call returns what it reports and the engine that it
-- leaves.
pub mod Tally
pub mod Late
use Prim.Native.String.{◌++◌}
use border.Prelude.{
  keep, ℕ, zero, ◌*◌, String, Bool, true, false, not, ◌&&◌, ◌||◌, Option, none, some, List, [], ◌∷◌,
  ltb, str_eq, if◌then◌else◌,
}
use border.Prelude.Int.{ℤ, pos, negsuc, ◌+ℤ◌, ◌-ℤ◌, leb_ℤ, ltb_ℤ}
use border.Prelude.Dict.{Dict, get, put, get_or, contains, values}
use border.Runtime.{
  Runtime, Json, null, int, coins, seconds, text, array, object, nil, end, Fields, find, find_or,
}
use border.Dao.{
  VoteChoice, yes, no, abstain, Vote, verify_vote, ProposalType, parameter, treasury, protocol,
  slash, custom, ProposalStatus, active, passed, rejected, executed, Proposal, min_proposal_stake,
  quorum_met, would_pass, has_ended,
}
use border.Dao.Treasury.{Treasury, spend, apply_parameter}

pub record Engine : Type 0 where
  pub funds : Treasury
  pub proposals : Dict Proposal
  pub votes : Dict (Dict Vote)
  pub parameters : Dict ℤ

-- The starting parameters, in units of 10^-8.
unfoldable pub initial_engine : Treasury → Engine
initial_engine funds = record {
  funds = funds;
  proposals = [];
  votes = [];
  parameters =
      ("min_bytes_per_block", pos 10_485_760_000_000_000)
      ∷ ("block_reward", pos 100_000_000)
      ∷ ("bc_per_gb", pos 100_000_000)
      ∷ ("bc_per_compute_hour", pos 200_000_000)
      ∷ ("bc_per_gb_per_day", pos 1_000_000)
      ∷ ("min_stake_to_work", pos 500_000_000)
      ∷ ("min_stake_to_store", pos 200_000_000)
      ∷ ("min_stake_to_infer", pos 500_000_000)
      ∷ ("min_stake_to_render", pos 1_000_000_000)
      ∷ ("tx_fee_pct", pos 1_000_000)
      ∷ [];
}

pub data Reply : Type 0 where
  submitted vote_cast done : Reply
  insufficient_stake already_exists : Reply
  bad_signature not_found voting_ended zero_weight : Reply
  voting_closed : ProposalStatus → Reply
  finalised already_finalised cannot_execute : ProposalStatus → Reply
  invalid_payload treasury_too_low : Reply
  type_error attribute_error : Reply

unfoldable pub submit : Proposal → ℤ → Engine → Reply × Engine
submit p proposer_balance e =
    if ltb_ℤ proposer_balance min_proposal_stake
    then (insufficient_stake, e)
    else elim (get p.proposal_id e.proposals) [
      | some old ↦ (already_exists, e)
      | none ↦ (
        submitted,
        record e {
          proposals = put p.proposal_id (record p { status = active }) e.proposals;
          votes = put p.proposal_id [] e.votes;
        },
      )
    ]

-- `_apply_weight`
unfoldable pub apply_weight : VoteChoice → ℤ → Proposal → Proposal
apply_weight yes weight p = record p { votes_yes = p.votes_yes +ℤ weight }
apply_weight no weight p = record p { votes_no = p.votes_no +ℤ weight }
apply_weight abstain weight p = record p { votes_abstain = p.votes_abstain +ℤ weight }

-- The vote that the voter cast before is taken back.
unfoldable pub revoke : Option Vote → Proposal → Proposal
revoke none p = p
revoke (some old) p = apply_weight old.choice (pos 0 -ℤ old.weight) p

-- `_finalise`
unfoldable pub finalise : ℤ → Proposal → Proposal
finalise total_supply p =
    if not (quorum_met total_supply p)
    then record p { status = rejected }
    else if would_pass total_supply p
    then record p { status = passed }
    else record p { status = rejected }

abbrev pub is_active : ProposalStatus → Bool
is_active active = true
is_active _ = false

abbrev pub votes_on : String → Engine → Dict Vote
votes_on id e = get_or id [] e.votes

-- `cast_vote` for a proposal that is there. A late vote finalises with a supply of 0.
unfoldable pub cast_on : ℕ → Vote → Proposal → Engine → Reply × Engine
cast_on now v p e =
    let existing = get v.voter_address (votes_on v.proposal_id e) in
    if not (is_active p.status)
    then (voting_closed p.status, e)
    else if has_ended now p
    then (voting_ended, record e { proposals = put v.proposal_id (finalise (pos 0) p) e.proposals })
    else if leb_ℤ v.weight (pos 0)
    then (zero_weight, e)
    else (
      vote_cast,
      record e {
        votes = put v.proposal_id (put v.voter_address v (votes_on v.proposal_id e)) e.votes;
        proposals =
            put v.proposal_id (apply_weight v.choice v.weight (revoke existing p)) e.proposals;
      },
    )

unfoldable pub cast_vote :
    Runtime → (VoteChoice → String) → ℕ → Vote → String → Engine → Reply × Engine
cast_vote rt show_choice now v voter_public_key e =
    if not (str_eq voter_public_key "") && not (verify_vote rt show_choice voter_public_key v)
    then (bad_signature, e)
    else elim (get v.proposal_id e.proposals) [ none ↦ (not_found, e) | some p ↦ cast_on now v p e ]

-- `tally` for a proposal that is there: no test of the time.
unfoldable pub tally_on : String → ℤ → Proposal → Engine → Reply × Engine
tally_on id total_supply p e =
    if not (is_active p.status) then (already_finalised p.status, e) else (
      finalised (finalise total_supply p).status,
      record e { proposals = put id (finalise total_supply p) e.proposals },
    )

unfoldable pub tally : String → ℤ → Engine → Reply × Engine
tally id total_supply e = elim (get id e.proposals) [
  | none ↦ (not_found, e)
  | some p ↦ tally_on id total_supply p e
]

-- A number of the payload, in units of 10^-8.
abbrev pub number : Json → Option ℤ
number (int n) = some (pos (n * 100_000_000))
number (coins z) = some z
number (seconds t) = some (pos (t * 100))
number _ = none

abbrev pub allowed_parameter_keys : List String
allowed_parameter_keys =
    "tx_fee_pct" ∷ "min_stake_to_work" ∷ "bc_per_gb_per_day" ∷ "bc_per_compute_hour"
    ∷ "bc_per_inference_token" ∷ "block_reward" ∷ "min_bytes_per_block"
    ∷ "compute_reward_multiplier" ∷ "storage_reward_multiplier" ∷ []

-- A truthy text, a falsy value, a truthy number, or a list or dictionary that is not empty.
pub data Given : Type 0 where
  given : String → Given
  missing a_number ill_typed : Given

abbrev pub text_given : Option Json → Given
text_given none = missing
text_given (some null) = missing
text_given (some (text s)) = if str_eq s "" then missing else given s
text_given (some (int zero)) = missing
text_given (some (int n)) = a_number
text_given (some (coins (pos zero))) = missing
text_given (some (coins z)) = a_number
text_given (some (seconds zero)) = missing
text_given (some (seconds t)) = a_number
text_given (some (array nil)) = missing
text_given (some (object end)) = missing
text_given _ = ill_typed

unfoldable pub set_parameter : String → Option Json → Engine → Reply × Engine
set_parameter key none e = (invalid_payload, e)
set_parameter key (some v) e = elim (number v) [
  | none ↦ (invalid_payload, e)
  | some z ↦ if ltb_ℤ z (pos 0) then (invalid_payload, e) else (
    done,
    record e { parameters = put key z e.parameters; funds = apply_parameter key z e.funds },
  )
]

-- A number is no key of the list, and a list or a dictionary cannot be looked for in a set.
unfoldable pub execute_parameter : Fields → Engine → Reply × Engine
execute_parameter payload e = elim (text_given (find "key" payload)) [
  | missing ↦ (invalid_payload, e)
  | a_number ↦ (invalid_payload, e)
  | ill_typed ↦ (type_error, e)
  | given key ↦
      if contains key allowed_parameter_keys
      then set_parameter key (find "value" payload) e
      else (invalid_payload, e)
]

unfoldable pub pay_out : String → ℕ → String → String → ℤ → String → Engine → Reply × Engine
pay_out spend_id now proposal_id recipient amount note e =
    let paid = spend spend_id now proposal_id recipient amount note e.funds in
    if leb_ℤ amount (pos 0)
    then (invalid_payload, e)
    else (if paid.0 then done else treasury_too_low, record e { funds = paid.1 })

-- Recipients, notes, flags and targets are texts: of another type they count as a TypeError, as an
-- amount does that is no number.
unfoldable pub execute_treasury : String → ℕ → String → Fields → Engine → Reply × Engine
execute_treasury spend_id now proposal_id payload e = elim (text_given (find "recipient" payload)) [
  | missing ↦ (invalid_payload, e)
  | a_number ↦ (type_error, e)
  | ill_typed ↦ (type_error, e)
  | given recipient ↦ elim (number (find_or "amount_bc" (coins (pos 0)) payload)) [
    | none ↦ (type_error, e)
    | some amount ↦ elim (find_or "note" (text "") payload) [
      | text note ↦ pay_out spend_id now proposal_id recipient amount note e
      | _ ↦ (type_error, e)
    ]
  ]
]

unfoldable pub execute_protocol : Fields → Engine → Reply × Engine
execute_protocol payload e = elim (text_given (find "feature_flag" payload)) [
  | missing ↦ (invalid_payload, e)
  | a_number ↦ (type_error, e)
  | ill_typed ↦ (type_error, e)
  | given flag ↦
      (done, record e { parameters = put ("feature_" ++ flag) (pos 100_000_000) e.parameters })
]

-- The engine has no attribute `chain`.
unfoldable pub execute_slash : Fields → Engine → Reply × Engine
execute_slash payload e = elim (text_given (find "target_address" payload)) [
  | missing ↦ (invalid_payload, e)
  | a_number ↦ (type_error, e)
  | ill_typed ↦ (type_error, e)
  | given target ↦ elim (number (find_or "slash_amount_bc" (coins (pos 0)) payload)) [
    | none ↦ (type_error, e)
    | some amount ↦ if leb_ℤ amount (pos 0) then (invalid_payload, e) else (attribute_error, e)
  ]
]

-- `_execute_payload`
unfoldable pub execute_payload : String → ℕ → Proposal → Engine → Reply × Engine
execute_payload spend_id now p e = elim p.proposal_type [
  | parameter ↦ execute_parameter p.payload e
  | treasury ↦ execute_treasury spend_id now p.proposal_id p.payload e
  | protocol ↦ execute_protocol p.payload e
  | slash ↦ execute_slash p.payload e
  | custom ↦ (done, e)
]

-- What `execute` does with the result of the payload.
unfoldable pub mark_executed : ℕ → String → Proposal → Reply × Engine → Reply × Engine
mark_executed now id p (done, e) = (
  done,
  record e {
    proposals = put id (record p { status = executed; executed_at = some now }) e.proposals;
  },
)
mark_executed now id p (reply, e) = (reply, e)

unfoldable pub execute_on : String → ℕ → String → Proposal → Engine → Reply × Engine
execute_on spend_id now id p e = elim p.status [
  | passed ↦ mark_executed now id p (execute_payload spend_id now p e)
  | _ ↦ (cannot_execute p.status, e)
]

unfoldable pub execute : String → ℕ → String → Engine → Reply × Engine
execute spend_id now id e = elim (get id e.proposals) [
  | none ↦ (not_found, e)
  | some p ↦ execute_on spend_id now id p e
]

unfoldable pub active_proposals : ℕ → Engine → List Proposal
active_proposals now e =
    keep (λ p. is_active p.status && not (has_ended now p)) (values e.proposals)

unfoldable pub get_votes : String → Engine → List Vote
get_votes id e = values (votes_on id e)

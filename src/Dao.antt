-- ===== src/Dao.antt =====
-- border/dao/vote.py and border/dao/proposal.py: votes, proposals and their tallies.
pub mod Treasury
pub mod Governance
mod Tests
use Prim.Native.String.{◌++◌}
use border.Prelude.{
  ℕ, ◌+◌, ◌*◌, String, Bool, true, false, ◌&&◌, Option, none, some, List, ltb, str_eq,
  if◌then◌else◌,
}
use border.Prelude.Int.{ℤ, pos, ◌+ℤ◌, leb_ℤ, ltb_ℤ, sub_ℕ, pos_part, neg_part}
use border.Runtime.{Runtime, Fields}
use border.Wallet.{Wallet, sign, verify}
use border.Transaction.{is_blank}

pub data VoteChoice : Type 0 where
  yes no abstain : VoteChoice

-- A weight is an amount of coins.
pub record Vote : Type 0 where
  pub vote_id : String
  pub proposal_id : String
  pub voter_did : String
  pub voter_address : String
  pub choice : VoteChoice
  pub weight : ℤ
  pub timestamp : ℕ
  pub signature : Option String
  pub reason : String

-- `show_choice` is `f"{choice}"`, which differs between versions of Python.
module _ (rt : Runtime) (show_choice : VoteChoice → String) where
  unfoldable pub vote_hash : Vote → String
  vote_hash v = rt.hex (
      rt.sha256 (
        rt.encode (
          v.vote_id
          ++ ":"
          ++ v.proposal_id
          ++ ":"
          ++ v.voter_address
          ++ ":"
          ++ show_choice v.choice
          ++ ":"
          ++ rt.show_coins v.weight
          ++ ":"
          ++ rt.show_seconds v.timestamp)))

  unfoldable pub sign_vote : Wallet → Vote → Vote
  sign_vote wallet v = record v { signature = some (sign rt wallet (rt.encode (vote_hash v))) }

  -- `verify_signature` makes the same calls as `BorderWallet.verify`.
  unfoldable pub verify_vote : String → Vote → Bool
  verify_vote public_key v = elim v.signature [
    | none ↦ false
    | some s ↦ if str_eq s "" then false else verify rt public_key (rt.encode (vote_hash v)) s
  ]

pub data ProposalType : Type 0 where
  parameter treasury protocol slash custom : ProposalType

pub data ProposalStatus : Type 0 where
  draft active passed rejected executed expired : ProposalStatus

pub record Proposal : Type 0 where
  pub proposal_id : String
  pub proposal_type : ProposalType
  pub proposer_did : String
  pub title : String
  pub description : String
  pub payload : Fields
  pub created_at : ℕ
  pub voting_ends_at : ℕ
  pub status : ProposalStatus
  pub executed_at : Option ℕ
  pub execution_tx : Option String
  pub votes_yes : ℤ
  pub votes_no : ℤ
  pub votes_abstain : ℤ

-- 7 days
abbrev pub voting_period : ℕ
voting_period = 604_800_000_000

-- 10 BC
abbrev pub min_proposal_stake : ℤ
min_proposal_stake = pos 1_000_000_000

unfoldable pub total_votes : Proposal → ℤ
total_votes p = p.votes_yes +ℤ p.votes_no +ℤ p.votes_abstain

abbrev pub times : ℕ → ℤ → ℤ
times n z = sub_ℕ (n * pos_part z) (n * neg_part z)

-- `yes_pct >= 0.51`, where the share is 0 if nobody voted yes or no.
unfoldable pub has_majority : Proposal → Bool
has_majority p =
    let cast = p.votes_yes +ℤ p.votes_no in
    ltb_ℤ (pos 0) cast && leb_ℤ (times 51 cast) (times 100 p.votes_yes)

-- `total_votes / total_supply >= 0.10`
unfoldable pub quorum_met : ℤ → Proposal → Bool
quorum_met total_supply p =
    if leb_ℤ total_supply (pos 0) then false else leb_ℤ total_supply (times 10 (total_votes p))

unfoldable pub would_pass : ℤ → Proposal → Bool
would_pass total_supply p = quorum_met total_supply p && has_majority p

abbrev pub has_ended : ℕ → Proposal → Bool
has_ended now p = ltb p.voting_ends_at now

-- `Proposal.create`, with the fresh id and the clock.
unfoldable pub create_proposal :
    (proposal_id : String) (now : ℕ)
    → ProposalType
    → String
    → String
    → String
    → Fields
    → ℕ
    → Proposal
create_proposal proposal_id now proposal_type proposer_did title description payload period =
    record {
      proposal_id = proposal_id;
      proposal_type = proposal_type;
      proposer_did = proposer_did;
      title = title;
      description = description;
      payload = payload;
      created_at = now;
      voting_ends_at = now + period;
      status = draft;
      executed_at = none;
      execution_tx = none;
      votes_yes = pos 0;
      votes_no = pos 0;
      votes_abstain = pos 0;
    }

-- ===== src/Dao/Tests.antt =====
-- The theorems on the treasury and on votes at concrete values.
use mathlib.Core.Option.{some-injective}
use border.Prelude.{
  String, ◌≡◌, ◌≢◌, ◌↔◌, refl, none, some, [], ◌∷◌, Bool-cases, inl, inr, arith, eq_iff, str_eq,
  sym, ap, ◌∙◌,
}
use border.Prelude.Int.{ℤ, pos, ◌+ℤ◌, ◌≤ℤ◌, ◌<ℤ◌}
use border.Prelude.Dict.{Dict, get, get_or}
use border.Runtime.{text, coins, end, field}
use border.Dao.{
  VoteChoice, yes, no, abstain, Vote, Proposal, slash, active, passed, rejected, total_votes, times,
}
use border.Dao.Treasury.{Step, Reach, initial_treasury, collect, spend}
use border.Dao.Treasury.Books.{IsBalanced, Reach-IsBalanced}
use border.Dao.Governance.{Engine, done, finalised, cast_vote, votes_on, tally, execute}
use border.Dao.Governance.Tally.{AreTallied, cast_vote-AreTallied, counted, tally_of}
use border.Dao.Governance.Late.{late_vote_rejects, slash_never_executes, tally_passes_iff}
use border.Samples.{toy}

Reach-IsBalanced_example :
    IsBalanced
      (spend "s1" 2 "p1" "BC_b"
        (pos 3)
        ""
        (collect "e1" 1 "compute" (pos 9) "" "" initial_treasury).1).1
Reach-IsBalanced_example = Reach-IsBalanced (
    Reach.next (Reach.next Reach.start (Step.collects "e1" 1 "compute" (pos 9) "" ""))
      (Step.spends "s1" 2 "p1" "BC_b" (pos 3) ""))

abbrev motion : Proposal
motion = record {
  proposal_id = "p1";
  proposal_type = slash;
  proposer_did = "did";
  title = "t";
  description = "d";
  payload = field "target_address" (text "BC_b") (field "slash_amount_bc" (coins (pos 5)) end);
  created_at = 0;
  voting_ends_at = 10;
  status = active;
  executed_at = none;
  execution_tx = none;
  votes_yes = pos 60;
  votes_no = pos 40;
  votes_abstain = pos 0;
}

abbrev ballot : VoteChoice → String → ℤ → Vote
ballot choice voter weight = record {
  vote_id = "v";
  proposal_id = "p1";
  voter_did = "did";
  voter_address = voter;
  choice = choice;
  weight = weight;
  timestamp = 1;
  signature = none;
  reason = "";
}

abbrev ballots : Dict Vote
ballots = ("BC_a", ballot yes "BC_a" (pos 60)) ∷ ("BC_b", ballot no "BC_b" (pos 40)) ∷ []

abbrev council : Engine
council = record {
  funds = initial_treasury;
  proposals = ("p1", motion) ∷ [];
  votes = ("p1", ballots) ∷ [];
  parameters = [];
}

motion-tallies : (c : VoteChoice) → tally_of c motion ≡ counted c ballots
unfolding ◌+ℤ◌
motion-tallies yes = refl
motion-tallies no = refl
motion-tallies abstain = refl

council-AreTallied : AreTallied council
unfolding get get_or
council-AreTallied = record {
  each = λ id p c g. elim (Bool-cases (str_eq "p1" id)) [
    | inl s ↦
        let is : motion ≡ p = some-injective motion p (sym (rw (s) refl) ∙ g) in
        ap (tally_of c) (sym is)
        ∙ motion-tallies c
        ∙ ap (λ k. counted c (votes_on k council)) ((eq_iff "p1" id).0 s)
    | inr s ↦ absurd (ground (arith, s, g))
  ];
}

cast_vote-AreTallied_example :
    AreTallied (cast_vote toy (λ c. "c") 5 (ballot no "BC_a" (pos 70)) "" council).1
cast_vote-AreTallied_example =
    cast_vote-AreTallied toy (λ c. "c") 5 (ballot no "BC_a" (pos 70)) "" council council-AreTallied

late_vote_rejects_example :
    get "p1" (cast_vote toy (λ c. "c") 11 (ballot yes "BC_c" (pos 900)) "" council).1.proposals
    ≡ some (record motion { status = rejected })
late_vote_rejects_example =
    late_vote_rejects toy (λ c. "c") 11 (ballot yes "BC_c" (pos 900)) council motion
      (unfold get in refl) refl (omega arith)

abbrev decided : Engine
decided = record council { proposals = ("p1", record motion { status = passed }) ∷ [] }

slash_never_executes_example :
    ((execute "s1" 12 "p1" decided).0 ≢ done) × ((execute "s1" 12 "p1" decided).1 ≡ decided)
slash_never_executes_example =
    slash_never_executes "s1" 12 "p1" decided (record motion { status = passed })
      (unfold get in refl) refl

tally_passes_iff_example : ((tally "p1" (pos 1000) council).0 ≡ finalised passed) ↔ (
    (pos 0 <ℤ pos 1000)
    × (pos 1000 ≤ℤ times 10 (total_votes motion))
    × (pos 0 <ℤ pos 60 +ℤ pos 40)
    × (times 51 (pos 60 +ℤ pos 40) ≤ℤ times 100 (pos 60)))
tally_passes_iff_example = tally_passes_iff "p1" (pos 1000) council motion (unfold get in refl) refl

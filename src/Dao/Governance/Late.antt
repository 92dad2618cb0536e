-- ===== src/Dao/Governance/Late.antt =====
-- Late votes, slashes and the states of a proposal.
use border.Prelude.{ℕ, String, ◌≡◌, ◌≢◌, ◌↔◌, ◌<◌, refl, ap, ◌∙◌, some, arith, eq_iff}
use border.Prelude.Int.{ℤ, pos, ◌+ℤ◌, ◌≤ℤ◌, ◌<ℤ◌}
use border.Prelude.Dict.{get, put, get-put}
use border.Runtime.{Runtime, Fields}
use border.Dao.{
  VoteChoice, Vote, Proposal, slash, ProposalStatus, active, passed, rejected, quorum_met,
  would_pass, has_majority, total_votes, times,
}
use border.Dao.Governance.{
  Engine, Reply, done, finalised, finalise, cast_on, cast_vote, tally_on, tally, execute_slash,
  execute_payload, mark_executed, execute_on, execute,
}

cast_on-late :
    (now : ℕ) (v : Vote) (e : Engine) (p : Proposal)
    → p.status ≡ active
    → p.voting_ends_at < now
    → (cast_on now v p e).1.proposals
      ≡ put v.proposal_id (record p { status = rejected }) e.proposals
unfolding cast_on finalise quorum_met
cast_on-late now v e p is late = ground arith

-- A vote without a key that comes after the end of the voting rejects an active proposal, whatever
-- its tallies are.
pub late_vote_rejects :
    (rt : Runtime) (show_choice : VoteChoice → String) (now : ℕ) (v : Vote) (e : Engine)
    (p : Proposal)
    → get v.proposal_id e.proposals ≡ some p
    → p.status ≡ active
    → p.voting_ends_at < now
    → get v.proposal_id (cast_vote rt show_choice now v "" e).1.proposals
      ≡ some (record p { status = rejected })
unfolding cast_vote
late_vote_rejects rt show_choice now v e p at is late = rw (at) (
    ap (get v.proposal_id) (cast_on-late now v e p is late)
    ∙ get-put v.proposal_id v.proposal_id (record p { status = rejected }) e.proposals
    ∙ rw ((eq_iff v.proposal_id v.proposal_id).1 refl) refl)

-- A proposal to slash: refused, or an exception, with nothing changed.
abbrev Fails : Engine → Reply × Engine → Type 0
Fails e r = (r.0 ≢ done) × (r.1 ≡ e)

execute_slash-Fails : (payload : Fields) (e : Engine) → Fails e (execute_slash payload e)
unfolding execute_slash
execute_slash-Fails payload e = (λ h. ground arith, ground arith)

mark_executed-Fails :
    (now : ℕ) (id : String) (p : Proposal) (e : Engine) (r : Reply × Engine)
    → Fails e r
    → Fails e (mark_executed now id p r)
unfolding mark_executed
mark_executed-Fails now id p e (done, _) h = absurd (h.0 refl)
mark_executed-Fails now id p e (_, _) h = h

execute_payload-Fails :
    (sid : String) (now : ℕ) (p : Proposal) (e : Engine)
    → p.proposal_type ≡ slash
    → Fails e (execute_payload sid now p e)
unfolding execute_payload
execute_payload-Fails sid now p e is = simp (is, execute_payload) (execute_slash-Fails p.payload e)

execute_on-Fails :
    (sid : String) (now : ℕ) (id : String) (p : Proposal) (e : Engine) (s : ProposalStatus)
    → p.status ≡ s
    → p.proposal_type ≡ slash
    → Fails e (execute_on sid now id p e)
unfolding execute_on
execute_on-Fails sid now id p e passed at is =
    simp (at, execute_on) (mark_executed-Fails now id p e _ (execute_payload-Fails sid now p e is))
execute_on-Fails sid now id p e _ at is = simp (at, execute_on) (λ h. ground arith, refl)

-- `execute` never reports success for a proposal to slash, and leaves the engine as it is.
pub slash_never_executes :
    (sid : String) (now : ℕ) (id : String) (e : Engine) (p : Proposal)
    → get id e.proposals ≡ some p
    → p.proposal_type ≡ slash
    → ((execute sid now id e).0 ≢ done) × ((execute sid now id e).1 ≡ e)
unfolding execute
slash_never_executes sid now id e p at is =
    rw (at, execute) (execute_on-Fails sid now id p e p.status refl is)

tally_on_iff :
    (id : String) (supply : ℤ) (e : Engine) (p : Proposal)
    → p.status ≡ active
    → ((tally_on id supply p e).0 ≡ finalised passed) ↔ (
        (pos 0 <ℤ supply)
        × (supply ≤ℤ times 10 (total_votes p))
        × (pos 0 <ℤ p.votes_yes +ℤ p.votes_no)
        × (times 51 (p.votes_yes +ℤ p.votes_no) ≤ℤ times 100 p.votes_yes))
unfolding tally_on finalise quorum_met would_pass has_majority
tally_on_iff id supply e p is = (λ h. ground arith, λ h. ground arith)

-- `tally` passes an active proposal exactly if the supply is above zero, a tenth of it voted, somebody
-- voted yes or no, and 51 in 100 of those voted yes. It does so also before the voting ends.
pub tally_passes_iff :
    (id : String) (supply : ℤ) (e : Engine) (p : Proposal)
    → get id e.proposals ≡ some p
    → p.status ≡ active
    → ((tally id supply e).0 ≡ finalised passed) ↔ (
        (pos 0 <ℤ supply)
        × (supply ≤ℤ times 10 (total_votes p))
        × (pos 0 <ℤ p.votes_yes +ℤ p.votes_no)
        × (times 51 (p.votes_yes +ℤ p.votes_no) ≤ℤ times 100 p.votes_yes))
unfolding tally
tally_passes_iff id supply e p at is = rw (at, tally) (tally_on_iff id supply e p is)

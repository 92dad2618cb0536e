-- ===== src/Dao/Governance/Tally.antt =====
-- The tallies that `cast_vote` of border/dao/governance.py keeps.
use mathlib.Core.Option.{some-injective}
use border.Prelude.{
  subst, ◌⊎◌, ℕ, String, ◌≡◌, refl, sym, ap, ◌∙◌, Option, none, some, [], ◌∷◌, arith, str_eq,
  eq_iff, if◌then◌else◌, Bool-cases, Option-cases, inl, inr,
}
use border.Prelude.Int.{ℤ, pos, ◌+ℤ◌, ◌-ℤ◌, int_laws}
use border.Prelude.Dict.{Dict, get, put, get-put, get_or-put}
use border.Runtime.{Runtime}
use border.Dao.{VoteChoice, yes, no, abstain, Vote, Proposal}
use border.Dao.Governance.{Engine, apply_weight, revoke, finalise, cast_on, cast_vote, votes_on}

-- What a weight cast for one choice counts for another.
abbrev pub weight_for : VoteChoice → VoteChoice → ℤ → ℤ
weight_for yes yes w = w
weight_for no no w = w
weight_for abstain abstain w = w
weight_for _ _ w = pos 0

abbrev pub counts : VoteChoice → Vote → ℤ
counts c v = weight_for c v.choice v.weight

abbrev pub count_of_last : VoteChoice → Option Vote → ℤ
count_of_last c none = pos 0
count_of_last c (some v) = counts c v

-- What the votes of a dict count for a choice.
abbrev pub counted : VoteChoice → Dict Vote → ℤ
counted c [] = pos 0
counted c ((k, v) ∷ d) = counts c v +ℤ counted c d

abbrev pub tally_of : VoteChoice → Proposal → ℤ
tally_of yes p = p.votes_yes
tally_of no p = p.votes_no
tally_of abstain p = p.votes_abstain

counted-put :
    (c : VoteChoice) (k : String) (v : Vote) (d : Dict Vote)
    → counted c (put k v d) +ℤ count_of_last c (get k d) ≡ counted c d +ℤ counts c v
unfolding put get
counted-put c k v [] = grind int_laws
counted-put c k v ((j, w) ∷ d) = elim (Bool-cases (str_eq j k)) [
  | inl e ↦ rw (e) (grind int_laws)
  | inr e ↦ rw (e) (grind (int_laws, counted-put c k v d))
]

-- The tallies of every proposal are what the votes on it count.
pub record AreTallied (e : Engine) : Type 0 where
  pub each :
      (id : String) (p : Proposal) (c : VoteChoice)
      → get id e.proposals ≡ some p
      → tally_of c p ≡ counted c (votes_on id e)

weigh :
    (c ch : VoteChoice) (w : ℤ) (p : Proposal)
    → tally_of c (apply_weight ch w p) ≡ tally_of c p +ℤ weight_for c ch w
unfolding apply_weight
weigh yes yes w p = refl
weigh yes no w p = grind int_laws
weigh yes abstain w p = grind int_laws
weigh no yes w p = grind int_laws
weigh no no w p = refl
weigh no abstain w p = grind int_laws
weigh abstain yes w p = grind int_laws
weigh abstain no w p = grind int_laws
weigh abstain abstain w p = refl

weight_for-negated :
    (c ch : VoteChoice) (w : ℤ) → weight_for c ch (pos 0 -ℤ w) +ℤ weight_for c ch w ≡ pos 0
weight_for-negated yes yes w = grind int_laws
weight_for-negated no no w = grind int_laws
weight_for-negated abstain abstain w = grind int_laws
weight_for-negated yes no w = grind int_laws
weight_for-negated yes abstain w = grind int_laws
weight_for-negated no yes w = grind int_laws
weight_for-negated no abstain w = grind int_laws
weight_for-negated abstain yes w = grind int_laws
weight_for-negated abstain no w = grind int_laws

revoked :
    (c : VoteChoice) (o : Option Vote) (p : Proposal)
    → tally_of c (revoke o p) +ℤ count_of_last c o ≡ tally_of c p
unfolding revoke
revoked c none p = grind int_laws
revoked c (some old) p = grind (
  int_laws,
  weigh c old.choice (pos 0 -ℤ old.weight) p,
  weight_for-negated c old.choice old.weight,
)

recounted :
    (c : VoteChoice) (v : Vote) (p : Proposal) (d : Dict Vote)
    → tally_of c p ≡ counted c d
    → tally_of c (apply_weight v.choice v.weight (revoke (get v.voter_address d) p))
      ≡ counted c (put v.voter_address v d)
recounted c v p d h = grind (
  int_laws,
  weigh c v.choice v.weight (revoke (get v.voter_address d) p),
  revoked c (get v.voter_address d) p,
  counted-put c v.voter_address v d,
  h,
)

tally-finalise : (c : VoteChoice) (s : ℤ) (p : Proposal) → tally_of c (finalise s p) ≡ tally_of c p
unfolding finalise
tally-finalise yes s p = ground arith
tally-finalise no s p = ground arith
tally-finalise abstain s p = ground arith

-- One proposal replaced, with the votes on it.
replaced :
    (e e' : Engine) (id : String) (p : Proposal) (d : Dict Vote)
    → AreTallied e
    → e'.proposals ≡ put id p e.proposals
    → ((j : String) → votes_on j e' ≡ (if str_eq id j then d else votes_on j e))
    → ((c : VoteChoice) → tally_of c p ≡ counted c d)
    → AreTallied e'
replaced e e' id p d h proposals votes ok = record {
  each = λ j q c g. elim (Bool-cases (str_eq id j)) [
    | inl same ↦
        let is : p ≡ q = some-injective p q (
          sym (rw (same) refl)
          ∙ sym (get-put id j p e.proposals)
          ∙ ap (get j) (sym proposals)
          ∙ g) in
        ap (tally_of c) (sym is) ∙ ok c ∙ ap (counted c) (sym (votes j ∙ rw (same) refl))
    | inr other ↦
        h.each j q c (
          sym (rw (other) refl) ∙ sym (get-put id j p e.proposals) ∙ ap (get j) (sym proposals) ∙ g)
        ∙ ap (counted c) (sym (votes j ∙ rw (other) refl))
  ];
}

-- The three ways a vote can end: nothing changes, the proposal is finalised, or the vote counts.
cast_on_cases :
    (now : ℕ) (v : Vote) (p : Proposal) (e : Engine)
    → ((cast_on now v p e).1 ≡ e)
      ⊎ (((cast_on now v p e).1
            ≡ record e { proposals = put v.proposal_id (finalise (pos 0) p) e.proposals })
          ⊎ ((cast_on now v p e).1 ≡ record e {
            votes = put v.proposal_id (put v.voter_address v (votes_on v.proposal_id e)) e.votes;
            proposals =
                put v.proposal_id
                  (apply_weight v.choice v.weight
                    (revoke (get v.voter_address (votes_on v.proposal_id e)) p))
                  e.proposals;
          }))
unfolding cast_on
cast_on_cases now v p e = ground arith

cast_on-AreTallied :
    (now : ℕ) (v : Vote) (p : Proposal) (e : Engine)
    → get v.proposal_id e.proposals ≡ some p
    → AreTallied e
    → AreTallied (cast_on now v p e).1
cast_on-AreTallied now v p e at h =
    let id = v.proposal_id in
    elim (cast_on_cases now v p e) [
      | inl q ↦ subst AreTallied (sym q) h
      | inr (inl q) ↦ subst AreTallied (sym q) (
          replaced e _ id (finalise (pos 0) p) (votes_on id e) h refl
            (λ j. elim (Bool-cases (str_eq id j)) [
              | inl s ↦ rw (s) (ap (λ k. votes_on k e) (sym ((eq_iff id j).0 s)))
              | inr s ↦ rw (s) refl
            ])
            (λ c. tally-finalise c (pos 0) p ∙ h.each id p c at))
      | inr (inr q) ↦ subst AreTallied (sym q) (
          replaced e _ id _ (put v.voter_address v (votes_on id e)) h refl
            (λ j. get_or-put id j [] (put v.voter_address v (votes_on id e)) e.votes)
            (λ c. recounted c v p (votes_on id e) (h.each id p c at)))
    ]

cast_vote-missing :
    (rt : Runtime) (show_choice : VoteChoice → String) (now : ℕ) (v : Vote) (key : String)
    (e : Engine)
    → get v.proposal_id e.proposals ≡ none
    → (cast_vote rt show_choice now v key e).1 ≡ e
unfolding cast_vote
cast_vote-missing rt show_choice now v key e at = rw (at, cast_vote) (ground arith)

cast_vote-found :
    (rt : Runtime) (show_choice : VoteChoice → String) (now : ℕ) (v : Vote) (key : String)
    (e : Engine) (p : Proposal)
    → get v.proposal_id e.proposals ≡ some p
    → ((cast_vote rt show_choice now v key e).1 ≡ e)
      ⊎ ((cast_vote rt show_choice now v key e).1 ≡ (cast_on now v p e).1)
unfolding cast_vote
cast_vote-found rt show_choice now v key e p at = ground arith

-- When the three tallies of every proposal are the sums of the weights of the votes that stand, one of
-- each voter, then so they are after `cast_vote`: a vote that a voter changes counts once.
pub cast_vote-AreTallied :
    (rt : Runtime) (show_choice : VoteChoice → String) (now : ℕ) (v : Vote) (key : String)
    (e : Engine)
    → AreTallied e
    → AreTallied (cast_vote rt show_choice now v key e).1
cast_vote-AreTallied rt show_choice now v key e h =
    elim (Option-cases (get v.proposal_id e.proposals)) [
      | inl at ↦ subst AreTallied (sym (cast_vote-missing rt show_choice now v key e at)) h
      | inr (p, at) ↦ elim (cast_vote-found rt show_choice now v key e p at) [
        | inl q ↦ subst AreTallied (sym q) h
        | inr q ↦ subst AreTallied (sym q) (cast_on-AreTallied now v p e at h)
      ]
    ]

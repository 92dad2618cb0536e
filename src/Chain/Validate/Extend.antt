-- ===== src/Chain/Validate/Extend.antt =====
-- `_validate_block` and `validate_chain` of border/blockchain/chain.py against each other.
use border.Prelude.{
  ℕ, zero, suc, ◌+◌, ◌-◌, ◌≤◌, ◌<◌, ◌≡◌, sym, ◌∙◌, refl, List, [], ◌∷◌, ◌++◌, length, last,
  get_elem?, eq_iff, arith,
}
use border.Runtime.{Runtime}
use border.Block.{Block, total_bytes, compute_hash}
use border.Chain.{Chain, blocks, chain_length, latest_block}
use border.Chain.Validate.{
  valid, validate_block, compute_next_difficulty, expected_difficulty, chain_valid, validate_from,
  validate_blocks, validate_chain,
}
use border.Chain.Validate.Laws.{validate_block_iff}

get_elem?-append_left {ℓ} :
    {A : Type ℓ} (xs ys : List A) (i : ℕ) → i < length xs → get_elem? (xs ++ ys) i ≡ get_elem? xs i
get_elem?-append_left [] ys i h = elim h [ ]
get_elem?-append_left (x ∷ xs) ys zero h = refl
get_elem?-append_left (x ∷ xs) ys (suc i) h = get_elem?-append_left xs ys i (omega arith)

expected_difficulty-append :
    (bs ys : List Block) (i : ℕ) (prev : Block)
    → 0 < i
    → i ≤ length bs
    → expected_difficulty (bs ++ ys) i prev ≡ expected_difficulty bs i prev
unfolding expected_difficulty
expected_difficulty-append bs ys i prev h le =
    rw (get_elem?-append_left bs ys (i - 2016) (omega arith))

module _ (rt : Runtime) where
  -- Blocks behind the list that is walked do not change the verdict.
  validate_from-append :
      (bs ys : List Block) (i : ℕ) (prev : Block) (rest : List Block)
      → 0 < i
      → i + length rest ≤ length bs
      → validate_from rt (bs ++ ys) i prev rest ≡ validate_from rt bs i prev rest
  unfolding validate_from
  validate_from-append bs ys i prev [] h le = refl
  validate_from-append bs ys i prev (b ∷ rest) h le = rw (
    expected_difficulty-append bs ys i prev h (omega arith),
    validate_from-append bs ys (suc i) b rest (omega arith) (omega arith),
  )

  -- The last step of the walk.
  validate_from-snoc :
      (bs : List Block) (i j : ℕ) (prev : Block) (rest : List Block) (b : Block)
      → i + length rest ≡ j
      → validate_from rt bs i prev rest ≡ chain_valid
      → b.previous_hash ≡ (last prev rest).block_hash
      → compute_hash rt b ≡ b.block_hash
      → b.difficulty ≤ total_bytes b
      → b.difficulty ≡ expected_difficulty bs j (last prev rest)
      → validate_from rt bs i prev (rest ++ b ∷ []) ≡ chain_valid
  unfolding validate_from
  validate_from-snoc bs i j prev [] b e v link seal enough diff =
      let at : i ≡ j = omega arith in
      rw at (
        ground
          (arith, eq_iff b.previous_hash prev.block_hash, eq_iff (compute_hash rt b) b.block_hash))
  validate_from-snoc bs i j prev (x ∷ rest) b e v link seal enough diff =
      ground (arith, validate_from-snoc bs (suc i) j x rest b)

  -- A chain that is valid stays so when a block is added that is valid at its end.
  pub validate_chain-add :
      (c : Chain) (b : Block)
      → validate_chain rt c ≡ chain_valid
      → validate_block rt c b ≡ valid
      → validate_blocks rt c.first (c.later ++ b ∷ []) ≡ chain_valid
  unfolding validate_chain validate_blocks compute_next_difficulty
  validate_chain-add c b whole ok =
      let v = (validate_block_iff rt c b).0 ok in
      let new = b ∷ [] in
      validate_from-snoc (blocks c ++ new) 1 (chain_length c) c.first c.later b (omega arith)
        (validate_from-append (blocks c) new 1 c.first c.later (omega arith) (omega arith) ∙ whole)
        v.linked v.sealed v.enough
        (v.difficult
          ∙ sym (
              expected_difficulty-append (blocks c) new (chain_length c) (latest_block c)
                (omega arith) (omega arith)))

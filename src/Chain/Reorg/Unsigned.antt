-- ===== src/Chain/Reorg/Unsigned.antt =====
-- `replace_chain` of border/blockchain/chain.py and the signatures of transactions.
use border.Prelude.{
  ℕ, zero, suc, ◌-◌, ◌≡◌, refl, none, some, ap, Option, List, [], ◌∷◌, map, length, get_elem?,
  arith, leb, Bool-cases, inl, inr,
}
use border.Runtime.{Runtime}
use border.Block.{Block, total_bytes}
use border.Block.Unsigned.{strip, compute_hash-strip}
use border.Chain.{Chain, chain_length}
use border.Chain.Validate.{
  ChainVerdict, chain_valid, expected_difficulty, validate_from, validate_blocks,
}
use border.Chain.Reorg.{replace_chain, adopted}

abbrev stripped : Option Block → Option Block
stripped none = none
stripped (some b) = some (strip b)

timestamp_at : (bs : List Block) (i : ℕ) → get_elem? (map strip bs) i ≡ stripped (get_elem? bs i)
timestamp_at [] i = refl
timestamp_at (b ∷ bs) zero = refl
timestamp_at (b ∷ bs) (suc i) = timestamp_at bs i

expected_difficulty-strip :
    (bs : List Block) (i : ℕ) (prev : Block)
    → expected_difficulty (map strip bs) i (strip prev) ≡ expected_difficulty bs i prev
unfolding expected_difficulty
expected_difficulty-strip bs i prev = ground (arith, timestamp_at bs (i - 2016))

module _ (rt : Runtime) where
  validate_from-strip :
      (bs : List Block) (i : ℕ) (prev : Block) (rest : List Block)
      → validate_from rt (map strip bs) i (strip prev) (map strip rest)
        ≡ validate_from rt bs i prev rest
  unfolding validate_from total_bytes
  validate_from-strip bs i prev [] = refl
  validate_from-strip bs i prev (b ∷ rest) = rw (
    compute_hash-strip rt b,
    expected_difficulty-strip bs i prev,
    validate_from-strip bs (suc i) b rest,
  )

  length-strip : (bs : List Block) → length (map strip bs) ≡ length bs
  length-strip [] = refl
  length-strip (b ∷ bs) = ap suc (length-strip bs)

  adopted_alike :
      (v : ChainVerdict) (b b' : Block) (bs bs' : List Block) (c : Chain)
      → (adopted v b bs c).0 ≡ (adopted v b' bs' c).0
  unfolding adopted
  adopted_alike chain_valid b b' bs bs' c = refl
  adopted_alike _ b b' bs bs' c = refl

  -- `replace_chain` adopts a candidate exactly if it adopts the same candidate with every signature
  -- and key of its transactions removed.
  pub replace_chain_ignores_signatures :
      (bs : List Block) (c : Chain)
      → (replace_chain rt (map strip bs) c).0 ≡ (replace_chain rt bs c).0
  unfolding replace_chain validate_blocks
  replace_chain_ignores_signatures [] c = refl
  replace_chain_ignores_signatures (b ∷ bs) c =
      elim (Bool-cases (leb (length (b ∷ bs)) (chain_length c))) [
        | inl short ↦ rw (length-strip bs, short)
        | inr longer ↦
            rw (length-strip bs, longer, validate_from-strip (b ∷ bs) 1 b bs)
              (adopted_alike _ (strip b) b (map strip bs) bs c)
      ]

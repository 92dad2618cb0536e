-- ===== src/Storage/Reassembly.antt =====
-- `reassemble` of border/storage/chunk.py gives back what `split` cut up.
use mathlib.Core.List.{Permᴰ, append_assoc}
use mathlib.Core.List.Permᴰ
use mathlib.Core.Option.{some-injective}
use border.Prelude.{
  get_elem?, length-append, ℕ, zero, suc, ◌+◌, ◌≤◌, ◌<◌, ◌≡◌, ◌⊎◌, refl, sym, ap, ◌∙◌, inl, inr,
  String, Bool, true, some, List, [], ◌∷◌, ◌++◌, map, length, drop, take-append-drop, drop-drop,
  drop_all, All, ltb, leb, arith, subst, Bool-cases,
}
use border.Prelude.Sort.{sorted-same, sorted_perm, IsSorted}
use border.Runtime.{Runtime}
use border.Storage.{
  Chunk, Cipher, join, range, piece, from_plaintext, make_chunks, split, reassemble,
}

-- The pieces from `i` on, whatever the fuel, if it is enough.
pub join-pieces :
    (fuel i k : ℕ) (bytes : List ℕ)
    → length bytes ≤ i + fuel
    → join (map (piece bytes (suc k)) (range fuel i (length bytes) (suc k))) ≡ drop i bytes
unfolding range
join-pieces zero i k bytes h = sym (drop_all i bytes (omega arith))
join-pieces (suc fuel) i k bytes h = elim (Bool-cases (ltb i (length bytes))) [
  | inl more ↦
      rw (more, join-pieces fuel (i + suc k) k bytes (omega arith), sym (drop-drop (suc k) i bytes))
        (take-append-drop (suc k) (drop i bytes))
  | inr done ↦ rw done (sym (drop_all i bytes (ground (arith, done))))
]

get_elem?-middle :
    (before : List Chunk) (c : Chunk) (after : List Chunk)
    → get_elem? (before ++ c ∷ after) (length before) ≡ some c
get_elem?-middle [] c after = refl
get_elem?-middle (x ∷ before) c after = get_elem?-middle before c after

abbrev pub le_index : Chunk → Chunk → Bool
le_index a b = leb a.index b.index

module _ (rt : Runtime) (ci : Cipher) (random : ℕ → List ℕ × List ℕ) (file_id : String) where
  pub plaintexts :
      (k count : ℕ) (bytes is : List ℕ)
      → map (λ c. c.plaintext) (make_chunks rt ci random file_id k bytes count is)
        ≡ map (piece bytes k) is
  unfolding make_chunks from_plaintext
  plaintexts k count bytes [] = refl
  plaintexts k count bytes (i ∷ is) = rw (plaintexts k (suc count) bytes is) refl

  later_indices :
      (k count : ℕ) (bytes is : List ℕ) (x : Chunk)
      → x.index < count
      → All (λ c. le_index x c ≡ true) (make_chunks rt ci random file_id k bytes count is)
  unfolding make_chunks from_plaintext
  later_indices k count bytes [] x h = tt
  later_indices k count bytes (i ∷ is) x h =
      (ground arith, later_indices k (suc count) bytes is x (omega arith))

  pub make_chunks-IsSorted :
      (k count : ℕ) (bytes is : List ℕ)
      → IsSorted le_index (make_chunks rt ci random file_id k bytes count is)
  unfolding make_chunks from_plaintext
  make_chunks-IsSorted k count bytes [] = tt
  make_chunks-IsSorted k count bytes (i ∷ is) = (
    later_indices k (suc count) bytes is
        (from_plaintext rt ci file_id count (piece bytes k i) (random count).0 (random count).1)
        (omega arith),
    make_chunks-IsSorted k (suc count) bytes is,
  )

  -- Each chunk stands at its index.
  make_chunks-at :
      (before : List Chunk) (k count : ℕ) (bytes is : List ℕ)
      → length before ≡ count
      → All
          (λ c.
            get_elem? (before ++ make_chunks rt ci random file_id k bytes count is) c.index
            ≡ some c)
          (make_chunks rt ci random file_id k bytes count is)
  unfolding make_chunks from_plaintext
  make_chunks-at before k count bytes [] h = tt
  make_chunks-at before k count bytes (i ∷ is) h =
      let c =
        from_plaintext rt ci file_id count (piece bytes k i) (random count).0 (random count).1 in
      (
        subst
            (λ n.
              get_elem? (before ++ c ∷ make_chunks rt ci random file_id k bytes (suc count) is) n
              ≡ some c)
            (h)
            (get_elem?-middle before c (make_chunks rt ci random file_id k bytes (suc count) is)),
        subst
            (λ l.
              All (λ x. get_elem? l x.index ≡ some x)
                (make_chunks rt ci random file_id k bytes (suc count) is))
            (append_assoc before (c ∷ []) (make_chunks rt ci random file_id k bytes (suc count) is))
            (make_chunks-at (before ++ c ∷ []) k (suc count) bytes is
              (omega (arith, length-append before (c ∷ [])))),
      )

le_total : (x y : Chunk) → (le_index x y ≡ true) ⊎ (le_index y x ≡ true)
le_total x y = ground arith

le_trans : (x y z : Chunk) → le_index x y ≡ true → le_index y z ≡ true → le_index x z ≡ true
le_trans x y z p q = ground arith

same_place :
    (cs : List Chunk) (x y : Chunk)
    → get_elem? cs x.index ≡ some x
    → get_elem? cs y.index ≡ some y
    → leb x.index y.index ≡ true
    → leb y.index x.index ≡ true
    → x ≡ y
same_place cs x y px py xy yx =
    let e : x.index ≡ y.index = ground arith in
    some-injective x y (sym px ∙ ap (get_elem? cs) (e) ∙ py)

module _ (rt : Runtime) (ci : Cipher) where
  -- The chunks that a file was split into, in whatever order they come, are put together to the file.
  pub split_then_reassemble :
      (random : ℕ → List ℕ × List ℕ) (k : ℕ) (bytes : List ℕ) (file_id : String)
      (cs arrived : List Chunk)
      → split rt ci random k bytes file_id ≡ some cs
      → Permᴰ arrived cs
      → reassemble rt arrived ≡ bytes
  unfolding split reassemble
  split_then_reassemble random zero bytes file_id cs arrived h p = absurd (cc h)
  split_then_reassemble random (suc k) bytes file_id cs arrived h p =
      let offsets = range (length bytes) 0 (length bytes) (suc k) in
      let made = make_chunks rt ci random file_id (suc k) bytes 0 offsets in
      let e : made ≡ cs = some-injective made cs h in
      let p' = subst (λ l. Permᴰ arrived l) (sym e) p in
      let same =
        sorted_perm le_index (λ c. get_elem? made c.index ≡ some c) (λ x y. le_total x y)
          (λ x y z. le_trans x y z) (same_place made) (Permᴰ.symm p')
          (make_chunks-at rt ci random file_id [] (suc k) 0 bytes offsets refl) in
      rw
        (
          sym same,
          sorted-same le_index made
              (make_chunks-IsSorted rt ci random file_id (suc k) 0 bytes offsets),
          plaintexts rt ci random file_id (suc k) 0 bytes offsets,
        )
        (join-pieces (length bytes) 0 k bytes (omega arith))

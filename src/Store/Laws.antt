-- ===== src/Store/Laws.antt =====
-- The store as what it stands for: the list of the blocks.
use border.Prelude.{
  ℕ, zero, suc, ◌+◌, ◌-◌, ◌≤◌, ◌≡◌, refl, ap, ◌∙◌, Option, none, some, List, [], ◌∷◌, ◌++◌, map,
  keep, take, drop, length, get_elem?, leb, ◌==◌, arith, ◌&&◌,
}
use border.Prelude.Int.{ℤ, pos, negsuc}
use border.Runtime.{Fields}
use border.Decoding.{read}
use border.Block.{Block, to_dict}
use border.Store.{
  Row, Store, insert_row, append_block, reorg_to, load_all, first_json, get_block, get_range,
  highest, height, count,
}

abbrev pub row_of : Block → Row
row_of b = record { idx = b.index; block_hash = b.block_hash; block_json = to_dict b }

-- The indices of the blocks count from `i`.
abbrev pub AreNumbered : ℕ → List Block → Type 0
AreNumbered i [] = Unit
AreNumbered i (b ∷ bs) = (b.index ≡ i) × AreNumbered (suc i) bs

-- The store holds exactly these blocks, numbered from 0.
pub record Holds (t : Store) (bs : List Block) : Type 0 where
  pub numbered : AreNumbered 0 bs
  pub rows : t.rows ≡ map row_of bs

insert_row-end :
    (i : ℕ) (bs : List Block) (b : Block)
    → AreNumbered i bs
    → b.index ≡ i + length bs
    → insert_row (row_of b) (map row_of bs) ≡ map row_of (bs ++ b ∷ [])
unfolding insert_row
insert_row-end i [] b h e = refl
insert_row-end i (x ∷ bs) b h e = ground (arith, h.0, insert_row-end (suc i) bs b h.1 (omega arith))

AreNumbered-append :
    (i : ℕ) (bs : List Block) (b : Block)
    → AreNumbered i bs
    → b.index ≡ i + length bs
    → AreNumbered i (bs ++ b ∷ [])
AreNumbered-append i [] b h e = (omega arith, tt)
AreNumbered-append i (x ∷ bs) b h e = (h.0, AreNumbered-append (suc i) bs b h.1 (omega arith))

-- Appending the next block to a store that holds `bs` succeeds and gives one that holds `bs` and it.
append_block-Holds :
    (t : Store) (bs : List Block) (b : Block)
    → Holds t bs
    → b.index ≡ length bs
    → (t' : Store) × (append_block (to_dict b) t ≡ read t') × Holds t' (bs ++ b ∷ [])
unfolding append_block to_dict
append_block-Holds t bs b h e = (
  record t { rows = insert_row (row_of b) t.rows },
  refl,
  record {
    numbered = AreNumbered-append 0 bs b h.numbered (omega arith);
    rows = rw (h.rows) (insert_row-end 0 bs b h.numbered (omega arith));
  },
)

-- The rows from `i` on up to `e`, where none is below `s`.
range_rows :
    (s e n i : ℕ) (bs : List Block)
    → AreNumbered i bs
    → s ≤ i
    → n ≡ e + 1 - i
    → keep (λ r. leb s r.idx && leb r.idx e) (map row_of bs) ≡ map row_of (take n bs)
range_rows s e zero i [] h low most = refl
range_rows s e (suc n) i [] h low most = refl
range_rows s e zero i (x ∷ bs) h low most =
    ground (arith, h.0, range_rows s e zero (suc i) bs h.1 (omega arith) (omega arith))
range_rows s e (suc n) i (x ∷ bs) h low most =
    ground (arith, h.0, range_rows s e n (suc i) bs h.1 (omega arith) (omega arith))

take-nil : (n : ℕ) → take {A = Block} n [] ≡ []
take-nil zero = refl
take-nil (suc n) = refl

-- The rows from `s` on up to `e`, where `d` of the rows are below `s`.
range_rows_from :
    (s e d i : ℕ) (bs : List Block)
    → AreNumbered i bs
    → s ≡ i + d
    → keep (λ r. leb s r.idx && leb r.idx e) (map row_of bs)
      ≡ map row_of (take (e + 1 - s) (drop d bs))
range_rows_from s e zero i bs h low = range_rows s e (e + 1 - s) i bs h (omega arith) (omega arith)
range_rows_from s e (suc d) i [] h low = rw (take-nil (e + 1 - s)) refl
range_rows_from s e (suc d) i (x ∷ bs) h low =
    ground (arith, h.0, range_rows_from s e d (suc i) bs h.1 (omega arith))

reorg_rows :
    (e n i : ℕ) (bs : List Block)
    → AreNumbered i bs
    → n ≡ e + 1 - i
    → keep (λ r. leb r.idx e) (map row_of bs) ≡ map row_of (take n bs)
reorg_rows e zero i [] h most = refl
reorg_rows e (suc n) i [] h most = refl
reorg_rows e zero i (x ∷ bs) h most =
    ground (arith, h.0, reorg_rows e zero (suc i) bs h.1 (omega arith))
reorg_rows e (suc n) i (x ∷ bs) h most =
    ground (arith, h.0, reorg_rows e n (suc i) bs h.1 (omega arith))

AreNumbered-take : (n i : ℕ) (bs : List Block) → AreNumbered i bs → AreNumbered i (take n bs)
AreNumbered-take zero i bs h = tt
AreNumbered-take (suc n) i [] h = tt
AreNumbered-take (suc n) i (x ∷ bs) h = (h.0, AreNumbered-take n (suc i) bs h.1)

abbrev pub dict_of : Option Block → Option Fields
dict_of none = none
dict_of (some b) = some (to_dict b)

one_row :
    (k d i : ℕ) (bs : List Block)
    → AreNumbered i bs
    → k ≡ i + d
    → first_json (keep (λ r. r.idx == k) (map row_of bs)) ≡ dict_of (get_elem? bs d)
one_row k zero i [] h at = refl
one_row k (suc d) i [] h at = refl
one_row k zero i (x ∷ bs) h at = ground (arith, h.0)
one_row k (suc d) i (x ∷ bs) h at = ground (arith, h.0, one_row k d (suc i) bs h.1 (omega arith))

json_rows : (bs : List Block) → map (λ r. r.block_json) (map row_of bs) ≡ map to_dict bs
json_rows [] = refl
json_rows (b ∷ bs) = rw (json_rows bs) refl

length-rows : (bs : List Block) → length (map row_of bs) ≡ length bs
length-rows [] = refl
length-rows (b ∷ bs) = rw (length-rows bs) refl

highest_row :
    (i : ℕ) (z : ℤ) (b : Block) (bs : List Block)
    → AreNumbered i (b ∷ bs)
    → highest z (map row_of (b ∷ bs)) ≡ pos (i + length bs)
highest_row i z b [] h = ap pos (omega (arith, h.0))
highest_row i z b (x ∷ bs) h = highest_row (suc i) (pos b.index) x bs h.1 ∙ ap pos (omega arith)

-- The number of the last block, or -1.
abbrev pub last_index : List Block → ℤ
last_index [] = negsuc 0
last_index (b ∷ bs) = pos (length bs)

highest_of :
    (bs : List Block) → AreNumbered 0 bs → highest (negsuc 0) (map row_of bs) ≡ last_index bs
highest_of [] h = refl
highest_of (b ∷ bs) h = highest_row 0 (negsuc 0) b bs h ∙ ap pos (omega arith)

-- What the operations do, said of the list of the blocks.
pub record Implements (t : Store) (bs : List Block) : Type 0 where
  pub loads : load_all t ≡ map to_dict bs
  pub counts : count t ≡ length bs
  pub ends : height t ≡ last_index bs
  pub reads : (k : ℕ) → get_block k t ≡ dict_of (get_elem? bs k)
  pub reads_range : (s e : ℕ) → get_range s e t ≡ map to_dict (take (e + 1 - s) (drop s bs))
  pub cuts : (h : ℕ) → Holds (reorg_to h t) (take (h + 1) bs)
  pub appends :
      (b : Block)
      → b.index ≡ length bs
      → (t' : Store) × (append_block (to_dict b) t ≡ read t') × Holds t' (bs ++ b ∷ [])

-- A store that holds a list of blocks, numbered from 0, implements that list: loading gives all of
-- them, counting and the height its length, reading by index or by range what the list has there,
-- cutting back keeps its first blocks, and appending the next block adds it at the end.
pub Holds-Implements : (t : Store) (bs : List Block) → Holds t bs → Implements t bs
unfolding load_all count height get_block get_range reorg_to
Holds-Implements t bs h = record {
  loads = rw (h.rows) (json_rows bs);
  counts = rw (h.rows) (length-rows bs);
  ends = rw (h.rows) (highest_of bs h.numbered);
  reads = λ k. rw (h.rows) (one_row k k 0 bs h.numbered (omega arith));
  reads_range = λ s e. rw (h.rows) (
      ap (map (λ r. r.block_json)) (range_rows_from s e s 0 bs h.numbered (omega arith))
      ∙ json_rows _);
  cuts = λ n. record {
    numbered = AreNumbered-take (n + 1) 0 bs h.numbered;
    rows = rw (h.rows) (reorg_rows n (n + 1) 0 bs h.numbered (omega arith));
  };
  appends = λ b e. append_block-Holds t bs b h e;
}

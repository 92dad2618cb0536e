-- ===== src/Store.antt =====
-- border/blockchain/store.py: the tables of blocks and of metadata, and the operations on them.
pub mod Laws
pub mod Node
pub mod Restart
mod Tests
use border.Prelude.{
  ℕ, suc, ◌+◌, Bool, true, false, ◌&&◌, String, Option, none, some, List, [], ◌∷◌, map, keep,
  length, ltb, leb, ◌==◌, str_eq, if◌then◌else◌,
}
use border.Prelude.Int.{ℤ, pos, negsuc}
use border.Prelude.Dict.{Dict, get_or, put}
use border.Runtime.{Fields, text, find_or}
use border.Decoding.{Decoded, read, required, as_int, as_text, ◌>>=◌}

-- A row of `blocks`. The columns that no query reads are left out, and the JSON text is kept as the
-- dictionary that it is read back to.
pub record Row : Type 0 where
  pub idx : ℕ
  pub block_hash : String
  pub block_json : Fields

-- `rows` stands in the order of the primary key.
pub record Store : Type 0 where
  pub rows : List Row
  pub metadata : Dict String

-- `INSERT OR REPLACE` by the primary key.
unfoldable pub insert_row : Row → List Row → List Row
insert_row r [] = r ∷ []
insert_row r (x ∷ xs) =
    let rest = insert_row r xs in
    if r.idx == x.idx then r ∷ xs else (if ltb r.idx x.idx then r ∷ x ∷ xs else x ∷ rest)

-- A dictionary without an index raises.
unfoldable pub append_block : Fields → Store → Decoded Store
append_block d t = do
  idx ← required "index" d >>= as_int
  block_hash ← as_text (find_or "block_hash" (text "") d)
  read (record t {
    rows = insert_row (record { idx = idx; block_hash = block_hash; block_json = d }) t.rows;
  })

unfoldable pub reorg_to : ℕ → Store → Store
reorg_to height t = record t { rows = keep (λ r. leb r.idx height) t.rows }

unfoldable pub load_all : Store → List Fields
load_all t = map (λ r. r.block_json) t.rows

-- `cur.fetchone()` of the rows that a query selects.
abbrev pub first_json : List Row → Option Fields
first_json [] = none
first_json (r ∷ rs) = some r.block_json

unfoldable pub get_block : ℕ → Store → Option Fields
get_block idx t = first_json (keep (λ r. r.idx == idx) t.rows)

unfoldable pub get_by_hash : String → Store → Option Fields
get_by_hash block_hash t = first_json (keep (λ r. str_eq r.block_hash block_hash) t.rows)

unfoldable pub get_range : ℕ → ℕ → Store → List Fields
get_range start end t =
    map (λ r. r.block_json) (keep (λ r. leb start r.idx && leb r.idx end) t.rows)

-- `SELECT MAX(idx)`: the last row, -1 where there is none.
abbrev pub highest : ℤ → List Row → ℤ
highest default [] = default
highest default (r ∷ rs) = highest (pos r.idx) rs

unfoldable pub height : Store → ℤ
height t = highest (negsuc 0) t.rows

unfoldable pub count : Store → ℕ
count t = length t.rows

unfoldable pub set_meta : String → String → Store → Store
set_meta key value t = record t { metadata = put key value t.metadata }

unfoldable pub get_meta : String → String → Store → String
get_meta key default t = get_or key default t.metadata

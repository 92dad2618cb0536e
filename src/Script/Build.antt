-- ===== src/Script/Build.antt =====
-- `ScriptBuilder`: the standard locking and unlocking scripts. `none` is a ValueError.
use border.Prelude.{
  ℕ, ◌+◌, String, Option, none, some, List, [], ◌∷◌, ◌++◌, length, ltb, leb, ◌&&◌, if◌then◌else◌,
}
use border.Runtime.{Runtime, ◌>>=◌}
use border.Script.Op
use border.Script.Bytes.{Bytes, to_bytes}

-- `_push`
unfoldable pub push : Bytes → Option Bytes
push b = if ltb 255 (length b) then none else some (Op.push ∷ length b ∷ b)

abbrev pub double_hash : Runtime → Bytes → Bytes
double_hash rt b = rt.sha256 (rt.sha256 b)

-- The pushes of a list of texts, one behind the other.
unfoldable pub push_all : Runtime → List String → Option Bytes
push_all rt [] = some []
push_all rt (s ∷ ss) = do p ← push (rt.encode s); rest ← push_all rt ss; some (p ++ rest)

module _ (rt : Runtime) where
  unfoldable pub p2pkh_lock : String → Option Bytes
  p2pkh_lock public_key = do
    hash ← push (double_hash rt (rt.encode public_key))
    some (Op.dup ∷ Op.hash256 ∷ (hash ++ Op.equalverify ∷ Op.checksig ∷ []))

  unfoldable pub p2pkh_unlock : String → String → Option Bytes
  p2pkh_unlock signature public_key = do
    sig ← push (rt.encode signature)
    key ← push (rt.encode public_key)
    some (sig ++ key)

  unfoldable pub multisig_lock : ℕ → List String → Option Bytes
  multisig_lock m public_keys =
      let n = length public_keys in
      if leb 1 m && (leb m n && leb n 15)
      then (do
        keys ← push_all rt public_keys
        some ((0x50 + m) ∷ (keys ++ (0x50 + n) ∷ Op.checkmultisig ∷ [])))
      else none

  unfoldable pub multisig_unlock : List String → Option Bytes
  multisig_unlock signatures = do sigs ← push_all rt signatures; some (Op.false_ ∷ sigs)

  unfoldable pub timelock_lock : ℕ → String → Option Bytes
  timelock_lock block_height public_key = do
    h_bytes ← to_bytes block_height
    h ← push h_bytes
    hash ← push (double_hash rt (rt.encode public_key))
    some (
        h
        ++ (Op.claimtimeverify
            ∷ Op.drop
            ∷ Op.dup
            ∷ Op.hash256
            ∷ (hash ++ Op.equalverify ∷ Op.checksig ∷ [])))

unfoldable pub data_carrier : Bytes → Option Bytes
data_carrier b = if ltb 80 (length b) then none else (do p ← push b; some (Op.return ∷ p))

-- ===== src/Script/Machine/Tests.antt =====
-- The theorems on the machine at concrete scripts.
use border.Prelude.{◌≡◌, refl, true, some, [], ◌∷◌, ◌++◌, leb, ltb, if◌then◌else◌}
use border.Prelude.Int.{negsuc}
use border.Script.Op
use border.Script.Bytes.{
  from_bytes_signed, from_bytes_signed-to_bytes_signed, to_bytes_signed, to_bytes, four_bytes,
}
use border.Script.Build.{push, p2pkh_unlock, p2pkh_lock, timelock_lock}
use border.Script.Engine.{finished, failed, locked_until, too_many_ops}
use border.Script.Machine.{run, skip}
use border.Script.Machine.Templates.{p2pkh_outcome, p2pkh_spends}
use border.Script.Machine.Timelock.{timelock_spends}
use border.Script.Machine.Limits.{endifs, run_op_limit, skip_ends_inside}
use border.Samples.{toy}

p2pkh_spends_example :
    run toy 7 [] ((76 ∷ 1 ∷ 1 ∷ 76 ∷ 1 ∷ 2 ∷ []) ++ (118 ∷ 170 ∷ 76 ∷ 1 ∷ 2 ∷ 136 ∷ 172 ∷ []))
    ≡ p2pkh_outcome toy 7 [] "s" "k" (2 ∷ [])
unfolding p2pkh_unlock p2pkh_lock push
p2pkh_spends_example = p2pkh_spends toy 7 [] "s" "k" "k" refl refl refl refl

timelock_spends_example :
    run toy 7 [] (
      (76 ∷ 1 ∷ 1 ∷ 76 ∷ 1 ∷ 2 ∷ [])
      ++ (76 ∷ 4 ∷ 9 ∷ 0 ∷ 0 ∷ 0 ∷ 177 ∷ 117 ∷ 118 ∷ 170 ∷ 76 ∷ 1 ∷ 2 ∷ 136 ∷ 172 ∷ []))
    ≡ (if ltb 7 9 then failed (locked_until 9 7) else p2pkh_outcome toy 7 [] "s" "k" (2 ∷ []))
unfolding p2pkh_unlock timelock_lock push to_bytes four_bytes
timelock_spends_example = timelock_spends toy 7 [] "s" "k" "k" 9 refl refl refl refl

run_op_limit_example :
    run toy 7 [] (endifs 202 ++ Op.true_ ∷ [])
    ≡ (if leb 202 201 then finished true else failed too_many_ops)
run_op_limit_example = run_op_limit toy 7 [] 202

skip_ends_inside_example :
    skip true 1 0 (Op.if_ ∷ Op.else_ ∷ Op.endif ∷ 0 ∷ Op.endif ∷ []) ≡ some (0 ∷ Op.endif ∷ [])
skip_ends_inside_example = skip_ends_inside (0 ∷ Op.endif ∷ [])

from_bytes_signed-to_bytes_signed_example :
    from_bytes_signed (254 ∷ 255 ∷ 255 ∷ 255 ∷ []) ≡ negsuc 1
from_bytes_signed-to_bytes_signed_example =
    from_bytes_signed-to_bytes_signed (negsuc 1) (unfold to_bytes_signed four_bytes in refl)

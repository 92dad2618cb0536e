-- ===== src/Dns/Names.antt =====
-- The suffix test of a name.
use Prim.Native.String.{[], ◌∷◌, ◌++◌}
use text.Mathlib.TextLemmas.{nil-append, cons-append}
use border.Prelude.{String, true, ◌≡◌, refl, eq_iff, arith}
use border.Dns.{ends_with}

ends_with_self : (t : String) → ends_with t t ≡ true
unfolding ends_with
ends_with_self [] = refl
ends_with_self (c ∷ t) = ground (arith, eq_iff (c ∷ t) (c ∷ t))

pub ends_with-append : (s t : String) → ends_with (s ++ t) t ≡ true
unfolding ends_with
ends_with-append [] t = rw (nil-append t) (ends_with_self t)
ends_with-append (c ∷ s) t = rw (cons-append c s t) (ground (arith, ends_with-append s t))

-- ===== src/Script/Bytes.antt =====
-- Python's `bytes` in the script engine: comparison, and `int.from_bytes` and `to_bytes`.
use border.Prelude.{
  ℕ, ◌+◌, ◌-◌, ◌*◌, ◌/◌, ◌%◌, ◌^◌, ◌<◌, ◌≡◌, ◌↔◌, refl, Bool, true, false, ◌&&◌, Option, none, some,
  List, [], ◌∷◌, length, ltb, leb, ◌==◌, arith, if◌then◌else◌,
}
use border.Prelude.Int.{ℤ, pos, negsuc, sub_ℕ}

abbrev pub Bytes : Type 0
Bytes = List ℕ

-- `a == b`
abbrev pub bytes_eq : Bytes → Bytes → Bool
bytes_eq [] [] = true
bytes_eq (x ∷ a) (y ∷ b) = (x == y) && bytes_eq a b
bytes_eq _ _ = false

pub bytes_eq_iff : (a b : Bytes) → (bytes_eq a b ≡ true) ↔ (a ≡ b)
bytes_eq_iff [] [] = (λ _. refl, λ _. refl)
bytes_eq_iff [] (y ∷ b) = ground arith
bytes_eq_iff (x ∷ a) [] = ground arith
bytes_eq_iff (x ∷ a) (y ∷ b) =
    (λ h. ground (arith, (bytes_eq_iff a b).0), λ h. ground (arith, (bytes_eq_iff a b).1))

-- `int.from_bytes(b, "little")`
unfoldable pub from_bytes : Bytes → ℕ
from_bytes [] = 0
from_bytes (x ∷ b) = x + 256 * from_bytes b

-- `int.from_bytes(b, "little", signed=True)`
unfoldable pub from_bytes_signed : Bytes → ℤ
from_bytes_signed b =
    let n = from_bytes b in if leb (256 ^ length b) (2 * n) then sub_ℕ n (256 ^ length b) else pos n

-- `n.to_bytes(4, "little")` for n below 2 ** 32
unfoldable pub four_bytes : ℕ → Bytes
four_bytes n = n % 256 ∷ n / 256 % 256 ∷ n / 65_536 % 256 ∷ n / 16_777_216 % 256 ∷ []

-- `n.to_bytes(4, "little")`, `none` for an OverflowError
unfoldable pub to_bytes : ℕ → Option Bytes
to_bytes n = if ltb n 4_294_967_296 then some (four_bytes n) else none

-- `z.to_bytes(4, "little", signed=True)`
unfoldable pub to_bytes_signed : ℤ → Option Bytes
to_bytes_signed (pos n) = if ltb n 2_147_483_648 then some (four_bytes n) else none
to_bytes_signed (negsuc n) =
    if ltb n 2_147_483_648 then some (four_bytes (4_294_967_295 - n)) else none

pub from_bytes-four_bytes : (n : ℕ) → n < 4_294_967_296 → from_bytes (four_bytes n) ≡ n
unfolding from_bytes four_bytes
from_bytes-four_bytes n h = omega arith

signed_four_bytes :
    (n : ℕ)
    → n < 4_294_967_296
    → from_bytes_signed (four_bytes n)
      ≡ (if leb 2_147_483_648 n then sub_ℕ n 4_294_967_296 else pos n)
unfolding from_bytes_signed
signed_four_bytes n h = rw (from_bytes-four_bytes n h) (unfold four_bytes in ground arith)

-- What `to_bytes` wrote in four signed bytes, `from_bytes` reads back.
pub from_bytes_signed-to_bytes_signed :
    (z : ℤ) {b : Bytes} → to_bytes_signed z ≡ some b → from_bytes_signed b ≡ z
unfolding to_bytes_signed
from_bytes_signed-to_bytes_signed (pos n) h = ground (arith, signed_four_bytes n)
from_bytes_signed-to_bytes_signed (negsuc n) h =
    ground (arith, signed_four_bytes (4_294_967_295 - n))

-- ===== src/Script/Op.antt =====
-- The opcodes, `OP`.
use border.Prelude.{ℕ}

abbrev pub false_ : ℕ
false_ = 0x00

abbrev pub push : ℕ
push = 0x4c

abbrev pub true_ : ℕ
true_ = 0x51

abbrev pub if_ : ℕ
if_ = 0x63

abbrev pub else_ : ℕ
else_ = 0x67

abbrev pub endif : ℕ
endif = 0x68

abbrev pub return : ℕ
return = 0x6a

abbrev pub drop : ℕ
drop = 0x75

abbrev pub dup : ℕ
dup = 0x76

abbrev pub equal : ℕ
equal = 0x87

abbrev pub equalverify : ℕ
equalverify = 0x88

abbrev pub not : ℕ
not = 0x91

abbrev pub add : ℕ
add = 0x93

abbrev pub sub : ℕ
sub = 0x94

abbrev pub hash256 : ℕ
hash256 = 0xaa

abbrev pub checksig : ℕ
checksig = 0xac

abbrev pub checkmultisig : ℕ
checkmultisig = 0xae

abbrev pub claimtimeverify : ℕ
claimtimeverify = 0xb1

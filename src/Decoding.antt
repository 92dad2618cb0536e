-- ===== src/Decoding.antt =====
-- How `from_dict` reads a dictionary, over the JSON values of Runtime.
use border.Prelude.{ℕ, ◌≡◌, refl, String, Option, none, some, List, [], ◌∷◌}
use border.Prelude.Int.{ℤ}
use border.Runtime.{
  Json, null, int, coins, seconds, text, array, object, Items, nil, cons, Fields, find,
  text_or_null,
}

-- What a decoding comes to: an exception, a value of another JSON type than its field is declared
-- with, or the value that is read. The source checks no types: with a foreign value it goes on, so
-- that `foreign` is no refusal, but the end of what is modelled here. A number that no field of the
-- model can hold, such as a negative index or NaN, counts as foreign too.
pub data Decoded {ℓ} (A : Type ℓ) : Type ℓ where
  raised : Decoded A
  foreign : Decoded A
  read : A → Decoded A

-- What is read first decides: behind a foreign value nothing more is said.
infixl 5 ◌>>=◌
abbrev pub ◌>>=◌ {ℓ κ} : {A : Type ℓ} {B : Type κ} → Decoded A → (A → Decoded B) → Decoded B
raised >>= f = raised
foreign >>= f = foreign
read a >>= f = f a

-- `d[key]`, with the KeyError of a missing key
abbrev pub required : String → Fields → Decoded Json
required key d = elim (find key d) [ none ↦ raised | some v ↦ read v ]

abbrev pub as_int : Json → Decoded ℕ
as_int (int n) = read n
as_int _ = foreign

abbrev pub as_coins : Json → Decoded ℤ
as_coins (coins z) = read z
as_coins _ = foreign

abbrev pub as_seconds : Json → Decoded ℕ
as_seconds (seconds t) = read t
as_seconds _ = foreign

abbrev pub as_text : Json → Decoded String
as_text (text s) = read s
as_text _ = foreign

-- A text field that may hold `None`.
abbrev pub as_text? : Json → Decoded (Option String)
as_text? null = read none
as_text? (text s) = read (some s)
as_text? _ = foreign

abbrev pub as_array : Json → Decoded Items
as_array (array xs) = read xs
as_array _ = foreign

abbrev pub as_object : Json → Decoded Fields
as_object (object d) = read d
as_object _ = foreign

-- `[decode(x) for x in items]`
abbrev pub each {ℓ} : {A : Type ℓ} → (Fields → Decoded A) → Items → Decoded (List A)
each decode nil = read []
each decode (cons x xs) = do d ← as_object x; a ← decode d; rest ← each decode xs; read (a ∷ rest)

-- `[encode(x) for x in xs]`
abbrev pub objects {ℓ} : {A : Type ℓ} → (A → Fields) → List A → Items
objects encode [] = nil
objects encode (x ∷ xs) = cons (object (encode x)) (objects encode xs)

pub each-objects {ℓ} :
    {A : Type ℓ} (encode : A → Fields) (decode : Fields → Decoded A)
    → ((a : A) → decode (encode a) ≡ read a)
    → (xs : List A) → each decode (objects encode xs) ≡ read xs
each-objects encode decode back [] = refl
each-objects encode decode back (x ∷ xs) = rw (back x, each-objects encode decode back xs)

pub as_text?-text_or_null : (s : Option String) → as_text? (text_or_null s) ≡ read s
as_text?-text_or_null none = refl
as_text?-text_or_null (some s) = refl

-- ===== src/Runtime.antt =====
-- What the program takes from Python's library and from `cryptography`: JSON values and their
-- printing, text encodings, SHA-256, base64 and the Ed25519 check. The functions are parameters.
use Prim.Native.Char.{Char}
use border.Prelude.{ℕ, Bool, String, Option, none, some, List, [], ◌∷◌, str_eq, if◌then◌else◌}
use border.Prelude.Int.{ℤ}

-- A JSON value as the dictionaries of the program hold it. A float is an amount of coins, in units
-- of 10^-8 BC, or a time in microseconds.
mutual
  pub data Json : Type 0 where
    null : Json
    int : ℕ → Json
    coins : ℤ → Json
    seconds : ℕ → Json
    text : String → Json
    array : Items → Json
    object : Fields → Json

  pub data Items : Type 0 where
    nil : Items
    cons : Json → Items → Items

  pub data Fields : Type 0 where
    end : Fields
    field : String → Json → Fields → Fields

-- `[text for x in xs]`
abbrev pub texts : List String → Items
texts [] = nil
texts (x ∷ xs) = cons (text x) (texts xs)

-- `d[key]`, `none` for a KeyError
abbrev pub find : String → Fields → Option Json
find key end = none
find key (field k v rest) = if str_eq k key then some v else find key rest

pub record Runtime : Type 0 where
  -- `json.dumps(value, sort_keys=True)`
  pub dumps : Json → String
  -- `s.encode()` and `b.decode()`
  pub encode : String → List ℕ
  pub decode : List ℕ → Option String
  -- `hashlib.sha256(b).digest()`, and `b.hex()`
  pub sha256 : List ℕ → List ℕ
  pub hex : List ℕ → String
  -- `base64.b64decode` and `b64encode(…).decode()`
  pub b64decode : String → Option (List ℕ)
  pub b64encode : List ℕ → String
  -- whether `Ed25519PublicKey.from_public_bytes(key).verify(sig, message)` returns
  pub ed25519_verify : List ℕ → List ℕ → List ℕ → Bool
  -- `Ed25519PrivateKey.sign(message)`
  pub ed25519_sign : List ℕ → List ℕ → List ℕ
  -- `s.lower()`
  pub lower : String → String
  -- `s.strip()`, and `c.isalnum()` of a character
  pub strip : String → String
  pub is_alnum : Char → Bool
  -- `f"{x}"` of an int, an amount and a time, and `f"{x:.8f}"` of an amount
  pub show_int : ℕ → String
  pub show_coins : ℤ → String
  pub show_seconds : ℕ → String
  pub show_coins_8 : ℤ → String

-- Chains of calls that may raise: the first exception ends them.
infixl 5 ◌>>=◌
abbrev pub ◌>>=◌ {ℓ κ} : {A : Type ℓ} {B : Type κ} → Option A → (A → Option B) → Option B
none >>= f = none
some a >>= f = f a

-- `d.get(key, default)`
abbrev pub find_or : String → Json → Fields → Json
find_or key default d = elim (find key d) [ none ↦ default | some v ↦ v ]

abbrev pub text_or_null : Option String → Json
text_or_null none = null
text_or_null (some s) = text s

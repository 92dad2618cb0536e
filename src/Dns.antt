-- ===== src/Dns.antt =====
-- border/dns/record.py: the records of a name, and which names are valid.
pub mod Names
pub mod Registry
pub mod Resolver
mod Tests
use Prim.Native.Char.{Char}
use Prim.Native.String.{[], ◌∷◌, count}
use text.Mathlib.Text.{starts_with}
use border.Prelude.{
  ℕ, zero, suc, ◌+◌, String, Bool, true, false, not, ◌&&◌, ◌||◌, Option, none, some, ltb, str_eq,
  if◌then◌else◌,
}
use border.Runtime.{Runtime, Fields}

pub data RecordType : Type 0 where
  address did cname txt srv : RecordType

abbrev pub same_type : RecordType → RecordType → Bool
same_type address t = elim t [ address ↦ true | _ ↦ false ]
same_type did t = elim t [ did ↦ true | _ ↦ false ]
same_type cname t = elim t [ cname ↦ true | _ ↦ false ]
same_type txt t = elim t [ txt ↦ true | _ ↦ false ]
same_type srv t = elim t [ srv ↦ true | _ ↦ false ]

pub record DnsRecord : Type 0 where
  pub record_id : String
  pub name : String
  pub record_type : RecordType
  pub value : String
  pub owner_address : String
  pub created_at : ℕ
  pub updated_at : ℕ
  pub ttl : ℕ
  pub metadata : Fields
  pub signature : Option String

unfoldable pub is_expired : ℕ → DnsRecord → Bool
is_expired now r = ltb (r.created_at + r.ttl) now

abbrev pub border_tld : String
border_tld = ".border"

-- `s.endswith(t)`
unfoldable pub ends_with : String → String → Bool
ends_with [] t = str_eq t ""
ends_with (c ∷ s) t = str_eq (c ∷ s) t || ends_with s t

-- `s.replace(".border", "")`, with the number of characters that a match still covers
unfoldable pub remove_tld : ℕ → String → String
remove_tld n [] = []
remove_tld (suc n) (c ∷ s) = remove_tld n s
remove_tld zero (c ∷ s) =
    let inside = remove_tld 6 s in
    let after = remove_tld 0 s in if starts_with (c ∷ s) border_tld then inside else c ∷ after

-- `s.strip(".")`
abbrev pub lstrip_dots : String → String
lstrip_dots [] = []
lstrip_dots (c ∷ s) = let rest = lstrip_dots s in if str_eq (c ∷ []) "." then rest else c ∷ s

abbrev pub rstrip_dots : String → String
rstrip_dots [] = []
rstrip_dots (c ∷ s) =
    let rest = rstrip_dots s in if str_eq (c ∷ []) "." && str_eq rest "" then "" else c ∷ rest

abbrev pub all_chars : (Char → Bool) → String → Bool
all_chars p [] = true
all_chars p (c ∷ s) = p c && all_chars p s

-- The reasons of `validate_name`.
pub data NameVerdict : Type 0 where
  valid_name too_short too_long bad_character hyphen_at_end : NameVerdict

module _ (rt : Runtime) where
  abbrev pub label : String → String
  label name = rstrip_dots (lstrip_dots (remove_tld 0 (rt.lower name)))

  unfoldable pub validate_name : String → NameVerdict
  unfolding remove_tld
  validate_name name =
      let l = label name in
      if ltb (count l) 3
      then too_short
      else (if ltb 63 (count l)
          then too_long
          else (if not (all_chars (λ c. rt.is_alnum c || str_eq (c ∷ []) "-") l)
              then bad_character
              else (if starts_with l "-" || ends_with l "-" then hyphen_at_end else valid_name)))

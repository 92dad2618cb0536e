-- ===== src/Dns/Registry.antt =====
-- border/dns/registry.py: the names, their owners and their records.
pub mod Laws
pub mod Visible
use Prim.Native.String.{◌++◌}
use border.Prelude.{
  ℕ, String, Bool, true, false, not, ◌&&◌, Option, none, some, List, [], ◌∷◌, ◌++◌ as append, map,
  keep, str_eq, if◌then◌else◌,
}
use border.Prelude.Int.{ℤ, pos, ◌+ℤ◌, ltb_ℤ}
use border.Prelude.Dict.{Dict, get, get_or, put}
use border.Runtime.{Runtime}
use border.Wallet.{key_matches_address, verify}
use border.Dns.{
  RecordType, same_type, DnsRecord, is_expired, border_tld, ends_with, NameVerdict, valid_name,
  validate_name,
}

abbrev pub registration_fee : ℤ
registration_fee = pos 100_000_000

abbrev pub transfer_fee : ℤ
transfer_fee = pos 1_000_000

-- `_save` writes the state to a file, and is no part of it.
pub record Registry : Type 0 where
  pub records : Dict (List DnsRecord)
  pub owners : Dict String
  pub total_fees : ℤ

abbrev pub has : {A : Type 0} → Option A → Bool
has none = false
has (some a) = true

-- The replies of the operations.
pub data Reply : Type 0 where
  registered added transferred : Reply
  invalid_name : NameVerdict → Reply
  already_registered fee_required invalid_signature not_registered not_owner : Reply

abbrev pub refused : Reply → Bool
refused registered = false
refused added = false
refused transferred = false
refused other = true

-- `d.get(k, [])` of the records, with those that `p` lets stay
abbrev pub records_of : String → Dict (List DnsRecord) → List DnsRecord
records_of name records = get_or name [] records

-- The records of a transferred name.
abbrev pub hand_over : String → ℕ → DnsRecord → DnsRecord
hand_over to_address now r = record r { owner_address = to_address; updated_at = now }

abbrev pub owned_by : String → Option String → Bool
owned_by address none = false
owned_by address (some owner) = str_eq owner address

-- `f"{name}.border"` where the suffix is missing
unfoldable pub with_suffix : String → String
with_suffix name = if ends_with name border_tld then name else name ++ border_tld

-- What `register` does with a name that passed its tests, by the records that the name had.
unfoldable pub enter_on : Option (List DnsRecord) → String → DnsRecord → ℤ → Registry → Registry
enter_on none name r fee_paid g = record {
  records = put name (r ∷ []) g.records;
  owners = put name r.owner_address g.owners;
  total_fees = g.total_fees +ℤ fee_paid;
}
enter_on (some rs) name r fee_paid g = record g {
  records =
      put name (append (keep (λ x. not (same_type x.record_type r.record_type)) rs) (r ∷ []))
        g.records;
}

unfoldable pub enter : String → DnsRecord → ℤ → Registry → Registry
enter name r fee_paid g = enter_on (get name g.records) name r fee_paid g

abbrev pub register_message : String → String → String
register_message name owner = "register:" ++ name ++ ":" ++ owner

abbrev pub add_message : String → String → String
add_message name caller = "add_record:" ++ name ++ ":" ++ caller

abbrev pub transfer_message : String → String → String → String
transfer_message name from_address to_address =
    "transfer:" ++ name ++ ":" ++ from_address ++ ":" ++ to_address

abbrev pub of_type : Option RecordType → DnsRecord → Bool
of_type none r = true
of_type (some t) r = same_type r.record_type t

module _ (rt : Runtime) where
  -- `_verify_owner_sig`
  unfoldable pub verify_owner_sig : String → String → String → String → Bool
  verify_owner_sig public_key address message signature =
      if key_matches_address rt public_key address
      then verify rt public_key (rt.encode message) signature
      else false

  unfoldable pub register_checked :
      String → DnsRecord → ℤ → String → String → Registry → Reply × Registry
  register_checked name r fee_paid public_key signature g =
      if has (get name g.owners) && not (owned_by r.owner_address (get name g.owners))
      then (already_registered, g)
      else if ltb_ℤ fee_paid registration_fee && not (has (get name g.owners))
      then (fee_required, g)
      else if not (
          verify_owner_sig public_key r.owner_address (register_message name r.owner_address)
            signature)
      then (invalid_signature, g)
      else (registered, enter name r fee_paid g)

  -- The early return of `register` on a name that is not valid.
  unfoldable pub if_valid_name : NameVerdict → Reply × Registry → Registry → Reply × Registry
  if_valid_name valid_name next g = next
  if_valid_name reason next g = (invalid_name reason, g)

  unfoldable pub register : DnsRecord → ℤ → String → String → Registry → Reply × Registry
  register r fee_paid public_key signature g =
      let name = rt.lower r.name in
      if_valid_name (validate_name rt name)
        (register_checked name r fee_paid public_key signature g) g

  -- The lists of records of `_records[name]`; a KeyError does not occur, since both dicts have the
  -- same keys.
  unfoldable pub add_record :
      String → DnsRecord → String → String → String → Registry → Reply × Registry
  add_record given r caller public_key signature g =
      let name = rt.lower given in
      if not (has (get name g.owners))
      then (not_registered, g)
      else if not (owned_by caller (get name g.owners))
      then (not_owner, g)
      else if not (verify_owner_sig public_key caller (add_message name caller) signature)
      then (invalid_signature, g)
      else (
        added,
        record g { records = put name (append (records_of name g.records) (r ∷ [])) g.records },
      )

  unfoldable pub transfer :
      String → String → String → ℤ → String → String → ℕ → Registry → Reply × Registry
  transfer given from_address to_address fee_paid public_key signature now g =
      let name = rt.lower given in
      if not (has (get name g.owners))
      then (not_registered, g)
      else if not (owned_by from_address (get name g.owners))
      then (not_owner, g)
      else if ltb_ℤ fee_paid transfer_fee
      then (fee_required, g)
      else if not (
          verify_owner_sig public_key from_address (transfer_message name from_address to_address)
            signature)
      then (invalid_signature, g)
      else (
        transferred,
        record {
          owners = put name to_address g.owners;
          records = put name (map (hand_over to_address now) (records_of name g.records)) g.records;
          total_fees = g.total_fees +ℤ fee_paid;
        },
      )

  unfoldable pub resolve : ℕ → String → Option RecordType → Registry → List DnsRecord
  resolve now name t g =
      keep (of_type t)
        (keep (λ r. not (is_expired now r)) (records_of (with_suffix (rt.lower name)) g.records))

  unfoldable pub owner_of : String → Registry → Option String
  owner_of name g = get (rt.lower name) g.owners

-- `names_for`
unfoldable pub names_for : String → Dict String → List String
names_for address [] = []
names_for address ((name, owner) ∷ rest) =
    let names = names_for address rest in if str_eq owner address then name ∷ names else names

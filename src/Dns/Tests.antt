-- ===== src/Dns/Tests.antt =====
-- The theorems on names at concrete registries.
use border.Prelude.{String, ◌≡◌, ◌⊎◌, ◌↔◌, refl, true, false, none, some, [], ◌∷◌}
use border.Prelude.Int.{pos}
use border.Prelude.Dict.{get, put}
use border.Runtime.{end}
use border.Wallet.{key_matches_address, verify, derive_address}
use border.Dns.{DnsRecord, RecordType, is_expired, border_tld, ends_with, remove_tld, validate_name}
use border.Dns.Registry.{
  Registry, registered, register, register_checked, if_valid_name, enter, enter_on, transfer,
  verify_owner_sig, resolve, registration_fee,
}
use border.Dns.Registry.Laws.{Step, SignedTransfer, Step-keeps_owner}
use border.Dns.Registry.Visible.{register_then_resolve, register_without_suffix_unseen}
use border.Dns.Resolver.{max_calls, resolve_recursive}
use border.Dns.Resolver.Laws.{Found, resolve_recursive_iff}
use border.Samples.{toy}

abbrev empty_registry : Registry
empty_registry = record { records = []; owners = []; total_fees = pos 0 }

abbrev alice : DnsRecord
alice = record {
  record_id = "1";
  name = "alice.border";
  record_type = RecordType.address;
  value = "BC_h";
  owner_address = "BC_h";
  created_at = 0;
  updated_at = 0;
  ttl = 1000;
  metadata = end;
  signature = none;
}

abbrev bare : DnsRecord
bare = record alice { name = "alice" }

abbrev entered : Registry
entered = (register toy alice registration_fee "k" "s" empty_registry).1

accepted : (register toy alice registration_fee "k" "s" empty_registry).0 ≡ registered
unfolding register if_valid_name validate_name remove_tld ends_with register_checked
    verify_owner_sig key_matches_address derive_address verify get
accepted = refl

suffixed : ends_with "alice.border" border_tld ≡ true
unfolding ends_with
suffixed = refl

not_suffixed : ends_with "alice" border_tld ≡ false
unfolding ends_with
not_suffixed = refl

not_expired : is_expired 5 alice ≡ false
unfolding is_expired
not_expired = refl

register_then_resolve_example :
    resolve toy 5 "alice.border" (some RecordType.address) entered ≡ alice ∷ []
register_then_resolve_example =
    register_then_resolve toy alice registration_fee "k" "s" 5 empty_registry accepted suffixed
      not_expired

register_without_suffix_unseen_example :
    resolve toy 5 "alice" none (register toy bare registration_fee "k" "s" entered).1
    ≡ resolve toy 5 "alice" none entered
register_without_suffix_unseen_example =
    register_without_suffix_unseen toy bare registration_fee "k" "s" entered not_suffixed 5 "alice"
      none

resolve_recursive_iff_example :
    (resolve_recursive toy 5 entered none max_calls "alice.border" ≡ alice ∷ [])
    ↔ Found toy 5 entered none max_calls "alice.border" alice []
resolve_recursive_iff_example = resolve_recursive_iff toy 5 entered none "alice.border" alice []

owned : get "alice.border" entered.owners ≡ some "BC_h"
unfolding register if_valid_name validate_name remove_tld ends_with register_checked
    verify_owner_sig key_matches_address derive_address verify enter enter_on get put
owned = refl

abbrev handed : Registry
handed = (transfer toy "alice.border" "BC_h" "BC_b" (pos 1_000_000) "k" "s" 6 entered).1

Step-keeps_owner_example :
    (get "alice.border" handed.owners ≡ some "BC_h")
    ⊎ ((to_address : String) × SignedTransfer toy "alice.border" "BC_h" to_address
        × (get "alice.border" handed.owners ≡ some to_address))
Step-keeps_owner_example =
    Step-keeps_owner toy "alice.border" "BC_h"
      (Step.transferring "alice.border" "BC_h" "BC_b" (pos 1_000_000) "k" "s" 6) owned

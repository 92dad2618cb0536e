-- ===== src/Identity/Tests.antt =====
-- The theorems on the registry of identities at two documents.
use border.Prelude.{◌≡◌, refl, some, [], ◌⊎◌}
use border.Prelude.Dict.{get, put}
use border.Identity.{BorderDid, did}
use border.Identity.Registry.{Registry, empty_registry, register, update, resolve}
use border.Identity.Registry.Handles.{Reach, Step, resolve_names, update_takes_handle}

abbrev alice : BorderDid
alice = record {
  wallet_address = "BC_a";
  public_key_hex = "k";
  created_at = 5;
  updated_at = 5;
  handle = some "alice.border";
  services = [];
  metadata = [];
}

abbrev bob : BorderDid
bob = record alice { wallet_address = "BC_b"; handle = some "bob.border" }

abbrev both : Registry
both = (register bob (register alice empty_registry).1).1

alice-is_resolved : resolve "alice.border" both ≡ some alice
unfolding resolve register did get put
alice-is_resolved = refl

resolve_names_example : (did alice ≡ "alice.border") ⊎ (alice.handle ≡ some "alice.border")
resolve_names_example =
    resolve_names
      (Reach.next (Reach.next Reach.start (Step.registering alice)) (Step.registering bob))
      "alice.border" alice alice-is_resolved

abbrev renamed : BorderDid
renamed = record bob { handle = some "alice.border" }

bob-is_known : get (did renamed) both.dids ≡ some bob
unfolding register did get put
bob-is_known = refl

update_takes_handle_example :
    resolve "alice.border" (update 6 renamed both).1 ≡ some (record renamed { updated_at = 6 })
update_takes_handle_example =
    update_takes_handle 6 "alice.border" renamed bob both bob-is_known refl refl refl

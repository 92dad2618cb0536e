-- ===== src/Dns/Resolver.antt =====
-- border/dns/resolver.py: the resolution of a name along its aliases. The cache is not modelled.
pub mod Laws
use Prim.Native.String.{◌++◌}
use border.Prelude.{ℕ, zero, suc, String, Bool, true, false, Option, none, some, List, [], ◌∷◌}
use border.Runtime.{Runtime}
use border.Dns.{RecordType, cname, DnsRecord}
use border.Dns.Registry.{Registry, resolve, with_suffix}

-- The calls up to `MAX_CNAME_DEPTH`, 8, that begins at 0.
abbrev pub max_calls : ℕ
max_calls = 9

abbrev pub asks_cname : Option RecordType → Bool
asks_cname none = false
asks_cname (some t) = elim t [ cname ↦ true | _ ↦ false ]

-- The direct records, or where there are none, and an alias was not asked for, what `next` gives of
-- the first alias.
unfoldable pub follow :
    (String → List DnsRecord) → Bool → List DnsRecord → List DnsRecord → List DnsRecord
follow next alias_asked (r ∷ rs) aliases = r ∷ rs
follow next true [] aliases = []
follow next false [] [] = []
follow next false [] (a ∷ others) = next a.value

module _ (rt : Runtime) (now : ℕ) (g : Registry) (t : Option RecordType) where
  -- `_resolve_recursive`, with the calls that are left
  unfoldable pub resolve_recursive : ℕ → String → List DnsRecord
  resolve_recursive zero name = []
  resolve_recursive (suc left) name =
      follow (resolve_recursive left) (asks_cname t) (resolve rt now name t g)
        (resolve rt now name (some cname) g)

  -- `_normalise`
  abbrev pub normalise : String → String
  normalise name = with_suffix (rt.strip (rt.lower name))

  -- `resolve` with an empty cache
  unfoldable pub resolve_fresh : String → List DnsRecord
  unfolding resolve_recursive
  resolve_fresh name = resolve_recursive max_calls (normalise name)

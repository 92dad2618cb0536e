-- ===== src/Dns/Resolver/Laws.antt =====
-- The recursion along aliases against the chains of aliases that it is to follow.
use border.Prelude.{
  ℕ, zero, suc, ◌<◌, ◌≡◌, ◌↔◌, refl, ◌∙◌, String, Bool, true, false, Option, some, List, [], ◌∷◌,
  arith,
}
use border.Runtime.{Runtime}
use border.Dns.{RecordType, cname, DnsRecord}
use border.Dns.Registry.{Registry, resolve}
use border.Dns.Resolver.{max_calls, asks_cname, follow, resolve_recursive}

module _ (rt : Runtime) (now : ℕ) (g : Registry) (t : Option RecordType) where
  -- `k` aliases lead from one name to another, each the first alias of a name with no record of the
  -- type that is asked for.
  pub data Leads : String → ℕ → String → Type 0 where
    direct : {name : String} → Leads name 0 name
    through :
        {name target : String} {k : ℕ} (a : DnsRecord) (others : List DnsRecord)
        → asks_cname t ≡ false
        → resolve rt now name t g ≡ []
        → resolve rt now name (some cname) g ≡ a ∷ others
        → Leads a.value k target
        → Leads name (suc k) target

  -- A name that such a chain reaches, with the records that it has.
  pub record Found (limit : ℕ) (name : String) (r : DnsRecord) (rs : List DnsRecord) : Type 0 where
    pub steps : ℕ
    pub target : String
    pub leads : Leads name steps target
    pub within : steps < limit
    pub found : resolve rt now target t g ≡ r ∷ rs

  follow-Found :
      (left : ℕ) (name : String) (alias : Bool) (own aliases : List DnsRecord) (r : DnsRecord)
      (rs : List DnsRecord)
      → asks_cname t ≡ alias
      → resolve rt now name t g ≡ own
      → resolve rt now name (some cname) g ≡ aliases
      → ((n : String) → resolve_recursive rt now g t left n ≡ r ∷ rs → Found left n r rs)
      → follow (resolve_recursive rt now g t left) alias own aliases ≡ r ∷ rs
      → Found (suc left) name r rs
  unfolding follow
  follow-Found left name alias (x ∷ xs) aliases r rs e own al ih h = record {
    steps = 0;
    target = name;
    leads = direct;
    within = omega arith;
    found = own ∙ h;
  }
  follow-Found left name true [] aliases r rs e own al ih h = absurd (cc h)
  follow-Found left name false [] [] r rs e own al ih h = absurd (cc h)
  follow-Found left name false [] (a ∷ others) r rs e own al ih h =
      let rest = ih a.value h in
      record {
        steps = suc rest.steps;
        target = rest.target;
        leads = through a others e own al rest.leads;
        within = omega (arith, rest.within);
        found = rest.found;
      }

  resolve_recursive-Found :
      (left : ℕ) (name : String) (r : DnsRecord) (rs : List DnsRecord)
      → resolve_recursive rt now g t left name ≡ r ∷ rs
      → Found left name r rs
  unfolding resolve_recursive
  resolve_recursive-Found zero name r rs h = absurd (cc h)
  resolve_recursive-Found (suc left) name r rs h =
      follow-Found left name (asks_cname t) _ _ r rs refl refl refl
        (λ n. resolve_recursive-Found left n r rs) h

  Leads-resolves :
      {name target : String} {k : ℕ} (left : ℕ) (r : DnsRecord) (rs : List DnsRecord)
      → Leads name k target
      → k < left
      → resolve rt now target t g ≡ r ∷ rs
      → resolve_recursive rt now g t left name ≡ r ∷ rs
  unfolding resolve_recursive follow
  Leads-resolves zero r rs chain h found = absurd (omega arith)
  Leads-resolves (suc left) r rs direct h found = rw (found) refl
  Leads-resolves (suc left) r rs (through a others e own al chain) h found =
      rw (e, own, al) (Leads-resolves left r rs chain (omega arith) found)

  -- The resolution, which always ends, gives a non-empty list exactly if at most 8 aliases lead to a
  -- name that has just these records.
  pub resolve_recursive_iff :
      (name : String) (r : DnsRecord) (rs : List DnsRecord)
      → (resolve_recursive rt now g t max_calls name ≡ r ∷ rs) ↔ Found max_calls name r rs
  resolve_recursive_iff name r rs = (
    resolve_recursive-Found max_calls name r rs,
    λ f. Leads-resolves max_calls r rs f.leads f.within f.found,
  )

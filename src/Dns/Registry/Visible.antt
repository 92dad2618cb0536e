-- ===== src/Dns/Registry/Visible.antt =====
-- What `resolve` shows of what `register` entered.
use border.Prelude.{
  ℕ, String, Bool, true, false, not, Option, none, some, inl, inr, List, [], ◌∷◌, ◌++◌ as append,
  ◌≡◌, ◌≢◌, refl, Bool-cases, eq_iff, arith, keep,
}
use border.Prelude.Int.{ℤ}
use border.Prelude.Dict.{Dict, get, put, get_or, get_or-put}
use border.Runtime.{Runtime}
use border.Dns.{DnsRecord, RecordType, ends_with, border_tld, same_type, is_expired}
use border.Dns.Names.{ends_with-append}
use border.Dns.Registry.{
  Registry, registered, register, register_checked, if_valid_name, enter_on, enter, resolve,
  with_suffix, of_type,
}

keep-append :
    (p : DnsRecord → Bool) (xs ys : List DnsRecord)
    → keep p (append xs ys) ≡ append (keep p xs) (keep p ys)
keep-append p [] ys = refl
keep-append p (x ∷ xs) ys = ground (arith, keep-append p xs ys)

-- Of the records of other types none is of the type.
none_of_type :
    (now : ℕ) (t : RecordType) (rs : List DnsRecord)
    → keep
        (of_type (some t))
        (keep (λ r. not (is_expired now r)) (keep (λ x. not (same_type x.record_type t)) rs))
      ≡ []
none_of_type now t [] = refl
none_of_type now t (r ∷ rs) = ground (arith, none_of_type now t rs)

same_type_refl : (t : RecordType) → same_type t t ≡ true
same_type_refl t = ground arith

with_suffix-ends : (name : String) → ends_with (with_suffix name) border_tld ≡ true
unfolding with_suffix
with_suffix-ends name = elim (Bool-cases (ends_with name border_tld)) [
  | inl e ↦ rw e e
  | inr e ↦ rw e (ends_with-append name border_tld)
]

here :
    (name : String) (rs : List DnsRecord) (d : Dict (List DnsRecord))
    → get_or name [] (put name rs d) ≡ rs
here name rs d = ground (arith, get_or-put name name [] rs d, eq_iff name name)

enter_on-shows :
    (o : Option (List DnsRecord)) (now : ℕ) (name : String) (r : DnsRecord) (fee : ℤ) (g : Registry)
    → is_expired now r ≡ false
    → keep
        (of_type (some r.record_type))
        (keep (λ x. not (is_expired now x)) (get_or name [] (enter_on o name r fee g).records))
      ≡ r ∷ []
unfolding enter_on
enter_on-shows none now name r fee g fresh =
    rw (here name (r ∷ []) g.records, fresh, same_type_refl r.record_type) refl
enter_on-shows (some rs) now name r fee g fresh =
    let others = keep (λ x. not (same_type x.record_type r.record_type)) rs in
    rw
      (
        here name (append others (r ∷ [])) g.records,
        keep-append (λ x. not (is_expired now x)) others (r ∷ []),
        keep-append (of_type (some r.record_type)) (keep (λ x. not (is_expired now x)) others)
            (keep (λ x. not (is_expired now x)) (r ∷ [])),
        none_of_type now r.record_type rs,
        fresh,
        same_type_refl r.record_type,
      )
      refl

-- A change of the records of one name shows at that name only.
enter_on-elsewhere :
    (o : Option (List DnsRecord)) (name m : String) (r : DnsRecord) (fee : ℤ) (g : Registry)
    → name ≢ m
    → get_or m [] (enter_on o name r fee g).records ≡ get_or m [] g.records
unfolding enter_on
enter_on-elsewhere none name m r fee g other =
    ground (arith, get_or-put name m [] (r ∷ []) g.records, eq_iff name m)
enter_on-elsewhere (some rs) name m r fee g other = ground (
  arith,
  get_or-put name m []
      (append (keep (λ x. not (same_type x.record_type r.record_type)) rs) (r ∷ [])) g.records,
  eq_iff name m,
)

module _ (rt : Runtime) where
  -- An accepted registration passed its tests and entered the record.
  register-enters :
      (r : DnsRecord) (fee : ℤ) (public_key signature : String) (g : Registry)
      → (register rt r fee public_key signature g).0 ≡ registered
      → (register rt r fee public_key signature g).1 ≡ enter (rt.lower r.name) r fee g
  unfolding register if_valid_name register_checked
  register-enters r fee public_key signature g h = ground arith

  -- A record of a name that ends in .border, entered by an accepted registration, is what a resolution
  -- of that name and its type gives until it expires: no other record of the type is left.
  pub register_then_resolve :
      (r : DnsRecord) (fee : ℤ) (public_key signature : String) (now : ℕ) (g : Registry)
      → (register rt r fee public_key signature g).0 ≡ registered
      → ends_with (rt.lower r.name) border_tld ≡ true
      → is_expired now r ≡ false
      → resolve rt now r.name (some r.record_type) (register rt r fee public_key signature g).1
        ≡ r ∷ []
  unfolding resolve enter with_suffix
  register_then_resolve r fee public_key signature now g accepted suffix fresh =
      rw (register-enters r fee public_key signature g accepted, suffix)
        (enter_on-shows (get (rt.lower r.name) g.records) now (rt.lower r.name) r fee g fresh)

  register-elsewhere :
      (r : DnsRecord) (fee : ℤ) (public_key signature : String) (g : Registry) (m : String)
      → rt.lower r.name ≢ m
      → get_or m [] (register rt r fee public_key signature g).1.records ≡ get_or m [] g.records
  unfolding register register_checked if_valid_name enter
  register-elsewhere r fee public_key signature g m other = ground (
    arith,
    enter_on-elsewhere (get (rt.lower r.name) g.records) (rt.lower r.name) m r fee g other,
  )

  -- A registration of a name that does not end in .border changes no resolution of any name.
  pub register_without_suffix_unseen :
      (r : DnsRecord) (fee : ℤ) (public_key signature : String) (g : Registry)
      → ends_with (rt.lower r.name) border_tld ≡ false
      → (now : ℕ) (name : String) (t : Option RecordType)
      → resolve rt now name t (register rt r fee public_key signature g).1 ≡ resolve rt now name t g
  unfolding resolve
  register_without_suffix_unseen r fee public_key signature g none_there now name t =
      let key = with_suffix (rt.lower name) in
      let other : rt.lower r.name ≢ key =
        λ same. absurd (cc (none_there, same, with_suffix-ends (rt.lower name))) in
      rw (register-elsewhere r fee public_key signature g key other) refl

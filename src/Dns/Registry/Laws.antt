-- ===== src/Dns/Registry/Laws.antt =====
-- Who may change the owner of a name, and what a registration makes visible.
use border.Prelude.{
  ℕ, String, true, false, not, ◌&&◌, Option, none, some, inl, inr, ◌⊎◌, List, ◌≡◌, Option-cases,
  eq_iff, arith,
}
use border.Prelude.Int.{ℤ}
use border.Prelude.Dict.{get, get-put}
use border.Runtime.{Runtime}
use border.Dns.{DnsRecord}
use border.Dns.Registry.{
  Registry, register, register_checked, if_valid_name, enter_on, enter, add_record, transfer, has,
  owned_by, verify_owner_sig, transfer_message,
}

module _ (rt : Runtime) where
  -- One call of an operation that changes the registry.
  pub data Step (g : Registry) : Registry → Type 0 where
    registering :
        (r : DnsRecord) (fee_paid : ℤ) (public_key signature : String)
        → Step g (register rt r fee_paid public_key signature g).1
    adding :
        (name : String) (r : DnsRecord) (caller public_key signature : String)
        → Step g (add_record rt name r caller public_key signature g).1
    transferring :
        (name from_address to_address : String) (fee_paid : ℤ) (public_key signature : String)
        (now : ℕ)
        → Step g (transfer rt name from_address to_address fee_paid public_key signature now g).1

  -- `owner` signed the transfer of `name` to `to_address` with a key of its own.
  pub record SignedTransfer (name owner to_address : String) : Type 0 where
    pub public_key : String
    pub signature : String
    pub signed :
        verify_owner_sig rt public_key owner (transfer_message name owner to_address) signature
        ≡ true

  enter_on-owner :
      (o : Option (List DnsRecord)) (name m : String) (r : DnsRecord) (fee : ℤ) (g : Registry)
      (owner : String)
      → (has (get name g.owners) && not (owned_by r.owner_address (get name g.owners)) ≡ false)
      → get m g.owners ≡ some owner
      → get m (enter_on o name r fee g).owners ≡ some owner
  unfolding enter_on
  enter_on-owner none name m r fee g owner free h = elim (Option-cases (get name g.owners)) [
    | inl e ↦ ground (arith, e, get-put name m r.owner_address g.owners, eq_iff name m)
    | inr (a, e) ↦ ground (
      arith,
      rw e at free,
      e,
      get-put name m r.owner_address g.owners,
      eq_iff name m,
      eq_iff a r.owner_address,
    )
  ]
  enter_on-owner (some rs) name m r fee g owner free h = h

  register-owner :
      (r : DnsRecord) (fee : ℤ) (public_key signature m owner : String) (g : Registry)
      → get m g.owners ≡ some owner
      → get m (register rt r fee public_key signature g).1.owners ≡ some owner
  unfolding register if_valid_name register_checked enter
  register-owner r fee public_key signature m owner g h =
      let name = rt.lower r.name in
      grind (
        arith,
        enter_on-owner (get name g.records) name m r fee g owner,
        Option-cases (get name g.owners),
      )

  add_record-owners :
      (name : String) (r : DnsRecord) (caller public_key signature : String) (g : Registry)
      → (add_record rt name r caller public_key signature g).1.owners ≡ g.owners
  unfolding add_record
  add_record-owners name r caller public_key signature g = ground arith

  transfer-owner :
      (name from_address to_address : String) (fee : ℤ) (public_key signature : String) (now : ℕ)
      (m owner : String) (g : Registry)
      → get m g.owners ≡ some owner
      → (get m (transfer rt name from_address to_address fee public_key signature now g).1.owners
          ≡ some owner)
        ⊎ ((rt.lower name ≡ m)
            × (from_address ≡ owner)
            × (verify_owner_sig rt public_key owner (transfer_message m owner to_address) signature
                ≡ true)
            × (get m
                  (transfer rt name from_address to_address fee public_key signature now g).1.owners
                ≡ some to_address))
  unfolding transfer
  transfer-owner name from_address to_address fee public_key signature now m owner g h = ground (
    arith,
    get-put (rt.lower name) m to_address g.owners,
    eq_iff (rt.lower name) m,
    eq_iff owner from_address,
  )

  -- After any call the owner of a name is the same as before, or the call was a transfer that the
  -- owner signed with a key that derives to its address, and the name has the new owner that the
  -- signed text names.
  pub Step-keeps_owner :
      {g g' : Registry} (m owner : String)
      → Step g g'
      → get m g.owners ≡ some owner
      → (get m g'.owners ≡ some owner)
        ⊎ ((to_address : String) × SignedTransfer m owner to_address
            × (get m g'.owners ≡ some to_address))
  Step-keeps_owner {g} m owner (registering r fee public_key signature) h =
      inl (register-owner r fee public_key signature m owner g h)
  Step-keeps_owner {g} m owner (adding name r caller public_key signature) h =
      inl (rw (add_record-owners name r caller public_key signature g) h)
  Step-keeps_owner {g} m owner (transferring name a b fee public_key signature now) h =
      elim (transfer-owner name a b fee public_key signature now m owner g h) [
        | inl same ↦ inl same
        | inr (at, from, signed, moved) ↦
            inr
              (b, record { public_key = public_key; signature = signature; signed = signed }, moved)
      ]

-- ===== src/Identity/Registry/Handles.antt =====
-- The index of the handles over any sequence of calls.
use mathlib.Core.Option.{some-injective}
use text.Mathlib.Text.{starts_with}
use Prim.Native.String.{◌++◌}
use text.Mathlib.TextLemmas.{append-eq-nil_iff}
use border.Prelude.{
  ◌≡◌, refl, sym, ◌∙◌, ap, ◌⊎◌, inl, inr, String, true, false, Option, none, some, arith, eq_iff, ℕ,
  List, [], Bool-cases, str_eq,
}
use border.Prelude.Dict.{Dict, get, put, get-put, get-remove}
use border.Transaction.{is_empty}
use border.Identity.{BorderDid, did, VerifiableClaim}
use border.Identity.Registry.{
  Registry, register, update, update_on, add_claim, resolve, document_of, index, unindex,
  empty_registry,
}

-- One call of an operation that changes the registry.
pub data Step (g : Registry) : Registry → Type 0 where
  registering : (d : BorderDid) → Step g (register d g).1
  updating : (now : ℕ) (d : BorderDid) → Step g (update now d g).1
  claiming : (now : ℕ) (c : VerifiableClaim) → Step g (add_claim now c g).1

pub data Reach : Registry → Type 0 where
  start : Reach empty_registry
  next : {g g' : Registry} → Reach g → Step g g' → Reach g'

-- What an entry of the index says is so.
record Names (h k : String) (dids : Dict BorderDid) : Type 0 where
  document : BorderDid
  at : get k dids ≡ some document
  named : document.handle ≡ some h
  filled : is_empty h ≡ false

record IsIndexed (g : Registry) : Type 0 where
  keyed : (k : String) (d : BorderDid) → get k g.dids ≡ some d → did d ≡ k
  names : (h k : String) → get h g.handles ≡ some k → Names h k g.dids

self : (s : String) → str_eq s s ≡ true
self s = (eq_iff s s).1 refl

did-filled : (d : BorderDid) → is_empty (did d) ≡ false
unfolding did
did-filled d = elim (Bool-cases (is_empty (did d))) [
  | inl e ↦ absurd (
      cc (
        (eq_iff "did:border:" "").1
          (append-eq-nil_iff.0 ((eq_iff ("did:border:" ++ d.wallet_address) "").0 e)).0))
  | inr e ↦ e
]

index_cases :
    (o : Option String) (id h k : String) (handles : Dict String)
    → get h (index o id handles) ≡ some k
    → ((o ≡ some h) × (k ≡ id) × (is_empty h ≡ false)) ⊎ (get h handles ≡ some k)
index_cases none id h k handles e = inr e
index_cases (some h') id h k handles e = ground (arith, get-put h' h id handles, eq_iff h' h)

unindex_cases :
    (old new : Option String) (h k : String) (handles : Dict String)
    → get h (unindex old new handles) ≡ some k
    → (get h handles ≡ some k) × (old ≡ some h → is_empty h ≡ false → new ≡ some h)
unindex_cases none new h k handles e = (e, λ f. absurd (cc f))
unindex_cases (some h') none h k handles e = ground (arith, get-remove h' h handles, eq_iff h' h)
unindex_cases (some h') (some n) h k handles e =
    ground (arith, get-remove h' h handles, eq_iff h' h, eq_iff h' n)

put-keyed :
    (d d' : BorderDid) (dids : Dict BorderDid)
    → did d' ≡ did d
    → ((k : String) (e : BorderDid) → get k dids ≡ some e → did e ≡ k)
    → (k : String) (e : BorderDid) → get k (put (did d) d' dids) ≡ some e
    → did e ≡ k
put-keyed d d' dids same h k e at = elim (Bool-cases (str_eq (did d) k)) [
  | inl here ↦
      ap did (sym (some-injective d' e (sym (rw (get-put (did d) k, here) refl) ∙ at)))
      ∙ same
      ∙ (eq_iff (did d) k).0 here
  | inr there ↦ h k e (sym (rw (get-put (did d) k, there) refl) ∙ at)
]

-- An entry of another document stays true when a document is put in.
Names-put :
    (h k id : String) (d : BorderDid) (dids : Dict BorderDid)
    → Names h k dids
    → (k ≡ id → d.handle ≡ some h)
    → Names h k (put id d dids)
Names-put h k id d dids n same = elim (Bool-cases (str_eq id k)) [
  | inl here ↦ record {
    document = d;
    at = rw (get-put id k, here) refl;
    named = same (sym ((eq_iff id k).0 here));
    filled = n.filled;
  }
  | inr there ↦ record {
    document = n.document;
    at = rw (get-put id k, there) n.at;
    named = n.named;
    filled = n.filled;
  }
]

Names-new :
    (h k id : String) (d : BorderDid) (dids : Dict BorderDid)
    → (d.handle ≡ some h) × (k ≡ id) × (is_empty h ≡ false)
    → Names h k (put id d dids)
Names-new h k id d dids (named, same, filled) = record {
  document = d;
  at = rw (same, get-put id id, (eq_iff id id).1 refl) refl;
  named = named;
  filled = filled;
}

same_document :
    {h k id : String} {old : BorderDid} {dids : Dict BorderDid} (n : Names h k dids)
    → get id dids ≡ some old
    → k ≡ id
    → old.handle ≡ some h
same_document {old} {dids} n e same =
    ap (λ o. o.handle)
      (some-injective old n.document (sym e ∙ ap (λ j. get j dids) (sym same) ∙ n.at))
    ∙ n.named

register_new-IsIndexed :
    (d : BorderDid) (g : Registry) (claims : Dict (List VerifiableClaim))
    → get (did d) g.dids ≡ none
    → IsIndexed g
    → IsIndexed (record {
      dids = put (did d) d g.dids;
      handles = index d.handle (did d) g.handles;
      claims = claims;
    })
register_new-IsIndexed d g claims fresh i = record {
  keyed = put-keyed d d g.dids refl i.keyed;
  names = λ h k e. elim (index_cases d.handle (did d) h k g.handles e) [
    | inl new ↦ Names-new h k (did d) d g.dids new
    | inr old ↦
        let n = i.names h k old in
        Names-put h k (did d) d g.dids n (λ same. absurd (cc (same, fresh, n.at)))
  ];
}

update_on-IsIndexed :
    (now : ℕ) (d : BorderDid) (g : Registry) (old : Option BorderDid)
    → get (did d) g.dids ≡ old
    → IsIndexed g
    → IsIndexed (update_on now d g old).1
unfolding update_on did
update_on-IsIndexed now d g none e i = i
update_on-IsIndexed now d g (some old) e i =
    let new = record d { updated_at = now } in
    record {
      keyed = put-keyed d new g.dids refl i.keyed;
      names = λ h k f.
          elim (index_cases d.handle (did d) h k (unindex old.handle d.handle g.handles) f) [
            | inl fresh ↦ Names-new h k (did d) new g.dids fresh
            | inr kept ↦
                let u = unindex_cases old.handle d.handle h k g.handles kept in
                let n = i.names h k u.0 in
                Names-put h k (did d) new g.dids n (λ same. u.1 (same_document n e same) n.filled)
          ];
    }

Step-IsIndexed : {g g' : Registry} → Step g g' → IsIndexed g → IsIndexed g'
unfolding register update add_claim
Step-IsIndexed {g} (registering d) i =
    ground (arith, register_new-IsIndexed d g (put (did d) [] g.claims))
Step-IsIndexed {g} (updating now d) i = update_on-IsIndexed now d g (get (did d) g.dids) refl i
Step-IsIndexed {g} (claiming now c) i = ground arith

Reach-IsIndexed : {g : Registry} → Reach g → IsIndexed g
unfolding get
Reach-IsIndexed start = record { keyed = λ k d e. absurd (cc e); names = λ h k e. absurd (cc e) }
Reach-IsIndexed (next r s) = Step-IsIndexed s (Reach-IsIndexed r)

document_of-named :
    (x : String) (o : Option String) (g : Registry) (d : BorderDid)
    → IsIndexed g
    → get x g.handles ≡ o
    → document_of o g ≡ some d
    → d.handle ≡ some x
document_of-named x none g d i e f = absurd (cc f)
document_of-named x (some k) g d i e f = ground (arith, i.names x k)

-- After any sequence of calls, what a name resolves to is the document with that name: its DID
-- is the name, or else its handle is.
pub resolve_names :
    {g : Registry}
    → Reach g
    → (x : String) (d : BorderDid) → resolve x g ≡ some d
    → (did d ≡ x) ⊎ (d.handle ≡ some x)
unfolding resolve
resolve_names {g} r x d e =
    let i = Reach-IsIndexed r in
    elim (Bool-cases (starts_with x "did:border:")) [
      | inl is_did ↦ inl (i.keyed x d (sym (rw is_did refl) ∙ e))
      | inr other ↦ inr (document_of-named x (get x g.handles) g d i refl (sym (rw other refl) ∙ e))
    ]

-- The document is registered and has a handle that is not empty and no DID. Then after `update` the
-- handle resolves to it, whoever had it before.
pub update_takes_handle :
    (now : ℕ) (h : String) (d old : BorderDid) (g : Registry)
    → get (did d) g.dids ≡ some old
    → d.handle ≡ some h
    → is_empty h ≡ false
    → starts_with h "did:border:" ≡ false
    → resolve h (update now d g).1 ≡ some (record d { updated_at = now })
unfolding resolve update update_on
update_takes_handle now h d old g known named filled handle =
    rw
      (
        known,
        handle,
        named,
        filled,
        get-put h h,
        self h,
        did-filled d,
        get-put (did d) (did d),
        self (did d),
      )
      refl

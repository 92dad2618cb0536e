-- ===== src/Identity/Registry.antt =====
-- `IdentityRegistry` of border/identity/registry.py, without its file: the documents by their DID,
-- the index of the handles, and the claims. A caller's object is taken as a value: a document that
-- is passed to `update` is another object than the one that is kept.
pub mod Handles
use text.Mathlib.Text.{starts_with}
use border.Prelude.{
  ℕ, keep, String, Bool, true, false, not, ◌&&◌, ◌||◌, Option, none, some, List, [], ◌∷◌, ◌++◌,
  str_eq, if◌then◌else◌,
}
use border.Prelude.Dict.{Dict, get, get_or, put, remove}
use border.Transaction.{is_empty}
use border.Identity.{BorderDid, did, VerifiableClaim, ClaimType, claim_value, is_expired}

pub record Registry : Type 0 where
  pub dids : Dict BorderDid
  pub handles : Dict String
  pub claims : Dict (List VerifiableClaim)

-- The answers of the calls.
pub data Reply : Type 0 where
  registered : Reply
  did_taken : Reply
  handle_taken : Reply
  updated : Reply
  did_not_found : Reply
  subject_not_registered : Reply
  already_expired : Reply
  accepted : Reply

abbrev pub is_some {ℓ} : {A : Type ℓ} → Option A → Bool
is_some none = false
is_some (some a) = true

abbrev pub is_taken : Option String → Dict String → Bool
is_taken none handles = false
is_taken (some h) handles = not (is_empty h) && is_some (get h handles)

-- `if handle: self._handle[handle] = did`
abbrev pub index : Option String → String → Dict String → Dict String
index none id handles = handles
index (some h) id handles = if is_empty h then handles else put h id handles

unfoldable pub register : BorderDid → Registry → Reply × Registry
unfolding did get put
register d g =
    if is_some (get (did d) g.dids)
    then (Reply.did_taken, g)
    else if is_taken d.handle g.handles
    then (Reply.handle_taken, g)
    else (
      Reply.registered,
      record {
        dids = put (did d) d g.dids;
        handles = index d.handle (did d) g.handles;
        claims = put (did d) [] g.claims;
      },
    )

abbrev pub is_handle : String → Option String → Bool
is_handle h none = false
is_handle h (some h') = str_eq h h'

-- `if old.handle and old.handle != new.handle: self._handle.pop(old.handle, None)`
abbrev pub unindex : (old new : Option String) → Dict String → Dict String
unindex none new handles = handles
unindex (some h) new handles = if is_empty h || is_handle h new then handles else remove h handles

abbrev pub update_on : (now : ℕ) → BorderDid → Registry → Option BorderDid → Reply × Registry
unfolding did put remove
update_on now d g none = (Reply.did_not_found, g)
update_on now d g (some old) = (
  Reply.updated,
  record g {
    handles = index d.handle (did d) (unindex old.handle d.handle g.handles);
    dids = put (did d) (record d { updated_at = now }) g.dids;
  },
)

unfoldable pub update : (now : ℕ) → BorderDid → Registry → Reply × Registry
unfolding update_on
update now d g = update_on now d g (get (did d) g.dids)

abbrev pub document_of : Option String → Registry → Option BorderDid
document_of none g = none
document_of (some id) g = if is_empty id then none else get id g.dids

-- A DID, or else a handle.
unfoldable pub resolve : String → Registry → Option BorderDid
resolve name g =
    if starts_with name "did:border:" then get name g.dids else document_of (get name g.handles) g

unfoldable pub add_claim : (now : ℕ) → VerifiableClaim → Registry → Reply × Registry
unfolding is_expired
add_claim now c g =
    if is_some (get c.subject_did g.dids)
    then (if is_expired now c then (Reply.already_expired, g) else (
      Reply.accepted,
      record g { claims = put c.subject_did (get_or c.subject_did [] g.claims ++ c ∷ []) g.claims },
    ))
    else (Reply.subject_not_registered, g)

-- A filter that is not given lets every claim through; an empty issuer counts as not given.
abbrev pub of_type : Option ClaimType → VerifiableClaim → Bool
of_type none c = true
of_type (some t) c = str_eq (claim_value c.claim_type) (claim_value t)

abbrev pub of_issuer : Option String → VerifiableClaim → Bool
of_issuer none c = true
of_issuer (some i) c = is_empty i || str_eq c.issuer_did i

unfoldable pub get_claims :
    (now : ℕ) (subject_did : String)
    → Option ClaimType
    → Option String
    → (include_expired : Bool) → Registry
    → List VerifiableClaim
unfolding is_expired get_or
get_claims now subject_did claim_type issuer_did include_expired g = keep (of_issuer issuer_did) (
    keep (of_type claim_type)
      (keep (λ c. include_expired || not (is_expired now c)) (get_or subject_did [] g.claims)))

unfoldable pub get_peer_trust : (now : ℕ) (subject_did : String) → Registry → List VerifiableClaim
unfolding get_claims
get_peer_trust now subject_did g =
    get_claims now subject_did (some ClaimType.peer_trust) none false g

abbrev pub empty_registry : Registry
empty_registry = record { dids = []; handles = []; claims = [] }

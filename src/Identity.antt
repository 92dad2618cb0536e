-- ===== src/Identity.antt =====
-- The identity documents of border/identity/did.py and the claims of border/identity/claim.py.
pub mod Registry
pub mod Codec
mod Tests
use Prim.Native.String.{◌++◌}
use mathlib.Core.List.{◌++◌ as append}
use border.Prelude.{
  ℕ, keep, ◌+◌, String, Bool, true, false, Option, none, some, List, [], ◌∷◌, map, length, ltb,
  ◌==◌, str_eq, if◌then◌else◌,
}
use border.Prelude.Dict.{Dict}
use border.Prelude.Sort.{sorted, text_le}
use border.Runtime.{
  Runtime, Fields, text, seconds, object, array, null, field, end, texts, text_or_null,
}
use border.Wallet.{Wallet, sign, verify}
use border.Transaction.{is_empty}

pub data ServiceType : Type 0 where
  relay : ServiceType
  compute : ServiceType
  storage : ServiceType
  identity : ServiceType
  wallet : ServiceType

pub record ServiceEndpoint : Type 0 where
  pub service_id : String
  pub service_type : ServiceType
  pub endpoint : String
  pub description : String

pub record BorderDid : Type 0 where
  pub wallet_address : String
  pub public_key_hex : String
  pub created_at : ℕ
  pub updated_at : ℕ
  pub handle : Option String
  pub services : List ServiceEndpoint
  pub metadata : Dict String

unfoldable pub did : BorderDid → String
did d = "did:border:" ++ d.wallet_address

pub data ClaimType : Type 0 where
  node_type : ClaimType
  region : ClaimType
  capacity : ClaimType
  stake : ClaimType
  uptime : ClaimType
  peer_trust : ClaimType
  custom : ClaimType

pub record VerifiableClaim : Type 0 where
  pub claim_id : String
  pub issuer_did : String
  pub subject_did : String
  pub claim_type : ClaimType
  pub claim_data : Fields
  pub issued_at : ℕ
  pub expires_at : Option ℕ
  pub signature : Option String

-- The values of the two enumerations.
abbrev pub service_value : ServiceType → String
service_value ServiceType.relay = "BorderRelay"
service_value ServiceType.compute = "BorderCompute"
service_value ServiceType.storage = "BorderStorage"
service_value ServiceType.identity = "BorderID"
service_value ServiceType.wallet = "BorderWallet"

abbrev pub claim_value : ClaimType → String
claim_value ClaimType.node_type = "node_type"
claim_value ClaimType.region = "region"
claim_value ClaimType.capacity = "capacity"
claim_value ClaimType.stake = "stake"
claim_value ClaimType.uptime = "uptime"
claim_value ClaimType.peer_trust = "peer_trust"
claim_value ClaimType.custom = "custom"

unfoldable pub get_services : ServiceType → BorderDid → List ServiceEndpoint
get_services t d = keep (λ s. str_eq (service_value s.service_type) (service_value t)) d.services

unfoldable pub is_expired : (now : ℕ) → VerifiableClaim → Bool
is_expired now c = elim c.expires_at [ none ↦ false | some t ↦ ltb t now ]

unfoldable pub is_self_attested : VerifiableClaim → Bool
is_self_attested c = str_eq c.issuer_did c.subject_did

-- `fresh` is the hex text of `uuid4`. A time to live of 0 counts as none.
unfoldable pub create :
    (fresh : String) (now : ℕ) (issuer_did subject_did : String)
    → ClaimType
    → Fields
    → Option ℕ
    → VerifiableClaim
create fresh now issuer_did subject_did claim_type claim_data ttl_seconds = record {
  claim_id = fresh;
  issuer_did = issuer_did;
  subject_did = subject_did;
  claim_type = claim_type;
  claim_data = claim_data;
  issued_at = now;
  expires_at = elim ttl_seconds [ none ↦ none | some t ↦ if t == 0 then none else some (now + t) ];
  signature = none;
}

module _ (rt : Runtime) where
  unfoldable pub document_hash : BorderDid → String
  unfolding did sorted
  document_hash d = rt.hex (
      rt.sha256 (
        rt.encode (
          rt.dumps (
            object (
              field "did" (text (did d)) (
                field "public_key" (text d.public_key_hex) (
                  field "created_at" (seconds d.created_at) (
                    field "handle" (text_or_null d.handle) (
                      field "services"
                        (array (texts (sorted text_le (map (λ s. s.service_id) d.services))))
                        end)))))))))

  -- The new endpoint is the last one of the result.
  unfoldable pub add_service :
      (now : ℕ) → ServiceType → (endpoint description : String) → BorderDid → BorderDid
  unfolding did
  add_service now t endpoint description d = record d {
    services = append d.services (
        record {
          service_id = did d ++ "#service-" ++ rt.show_int (length d.services + 1);
          service_type = t;
          endpoint = endpoint;
          description = description;
        }
        ∷ []);
    updated_at = now;
  }

  unfoldable pub claim_hash : VerifiableClaim → String
  claim_hash c = rt.hex (
      rt.sha256 (
        rt.encode (
          rt.dumps (
            object (
              field "claim_id" (text c.claim_id) (
                field "issuer_did" (text c.issuer_did) (
                  field "subject_did" (text c.subject_did) (
                    field "claim_type" (text (claim_value c.claim_type)) (
                      field "claim_data" (object c.claim_data) (
                        field "issued_at" (seconds c.issued_at) (
                          field "expires_at"
                            (elim c.expires_at [ none ↦ null | some t ↦ seconds t ]) end)))))))))))

  unfoldable pub sign_claim : Wallet → VerifiableClaim → VerifiableClaim
  unfolding sign claim_hash
  sign_claim w c = record c { signature = some (sign rt w (rt.encode (claim_hash c))) }

  -- The body is that of `BorderWallet.verify`, behind the test of the signature.
  unfoldable pub verify_signature : (public_key_b64 : String) → VerifiableClaim → Bool
  unfolding verify claim_hash
  verify_signature public_key_b64 c = elim c.signature [
    | none ↦ false
    | some s ↦ if is_empty s then false else verify rt public_key_b64 (rt.encode (claim_hash c)) s
  ]

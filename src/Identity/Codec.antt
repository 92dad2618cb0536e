-- ===== src/Identity/Codec.antt =====
-- `to_dict` and `from_dict` of border/identity/did.py and claim.py.
use border.Prelude.{ℕ, ◌≡◌, refl, String, [], ◌∷◌, str_eq, if◌then◌else◌}
use border.Prelude.Dict.{Dict}
use border.Runtime.{
  null, seconds, text, array, nil, object, Fields, end, field, find_or, text_or_null,
}
use border.Decoding.{
  Decoded, raised, read, required, as_seconds, as_text, as_text?, as_array, as_object, each,
  objects, each-objects, as_text?-text_or_null, ◌>>=◌,
}
use border.Compute.Codec.{seconds_or_null, as_seconds?, as_seconds?-seconds_or_null}
use border.Identity.{
  ServiceType, ServiceEndpoint, BorderDid, ClaimType, VerifiableClaim, service_value, claim_value,
}

-- Python raises a ValueError for any other text.
abbrev pub service_of : String → Decoded ServiceType
service_of s =
    if str_eq s "BorderRelay"
    then read ServiceType.relay
    else (if str_eq s "BorderCompute"
        then read ServiceType.compute
        else (if str_eq s "BorderStorage"
            then read ServiceType.storage
            else (if str_eq s "BorderID"
                then read ServiceType.identity
                else (if str_eq s "BorderWallet" then read ServiceType.wallet else (raised)))))

service_of-value : (x : ServiceType) → service_of (service_value x) ≡ read x
service_of-value ServiceType.relay = refl
service_of-value ServiceType.compute = refl
service_of-value ServiceType.storage = refl
service_of-value ServiceType.identity = refl
service_of-value ServiceType.wallet = refl

-- Python raises a ValueError for any other text.
abbrev pub claim_of : String → Decoded ClaimType
claim_of s =
    if str_eq s "node_type"
    then read ClaimType.node_type
    else (if str_eq s "region"
        then read ClaimType.region
        else (if str_eq s "capacity"
            then read ClaimType.capacity
            else (if str_eq s "stake"
                then read ClaimType.stake
                else (if str_eq s "uptime"
                    then read ClaimType.uptime
                    else (if str_eq s "peer_trust"
                        then read ClaimType.peer_trust
                        else (if str_eq s "custom" then read ClaimType.custom else (raised)))))))

claim_of-value : (x : ClaimType) → claim_of (claim_value x) ≡ read x
claim_of-value ClaimType.node_type = refl
claim_of-value ClaimType.region = refl
claim_of-value ClaimType.capacity = refl
claim_of-value ClaimType.stake = refl
claim_of-value ClaimType.uptime = refl
claim_of-value ClaimType.peer_trust = refl
claim_of-value ClaimType.custom = refl

-- A dictionary of texts as a JSON object.
abbrev pub of_texts : Dict String → Fields
of_texts [] = end
of_texts ((k, s) ∷ d) = field k (text s) (of_texts d)

abbrev pub to_texts : Fields → Decoded (Dict String)
to_texts end = read []
to_texts (field k v d) = do s ← as_text v; rest ← to_texts d; read ((k, s) ∷ rest)

to_texts-of_texts : (d : Dict String) → to_texts (of_texts d) ≡ read d
to_texts-of_texts [] = refl
to_texts-of_texts ((k, s) ∷ d) = rw (to_texts-of_texts d) refl

unfoldable pub service_to_dict : ServiceEndpoint → Fields
service_to_dict s = field "id" (text s.service_id) (
    field "type" (text (service_value s.service_type))
      (field "serviceEndpoint" (text s.endpoint) (field "description" (text s.description) (end))))

unfoldable pub service_from_dict : Fields → Decoded ServiceEndpoint
service_from_dict d = do
  service_id ← required "id" d >>= as_text
  service_type ← required "type" d >>= as_text >>= service_of
  endpoint ← required "serviceEndpoint" d >>= as_text
  description ← as_text (find_or "description" (text "") d)
  read (record {
    service_id = service_id;
    service_type = service_type;
    endpoint = endpoint;
    description = description;
  })

unfoldable pub did_to_dict : BorderDid → Fields
unfolding service_to_dict
did_to_dict d = field "wallet_address" (text d.wallet_address) (
    field "public_key_hex" (text d.public_key_hex) (
      field "created_at" (seconds d.created_at) (
        field "updated_at" (seconds d.updated_at) (
          field "handle" (text_or_null d.handle) (
            field "services" (array (objects service_to_dict d.services))
              (field "metadata" (object (of_texts d.metadata)) (end)))))))

unfoldable pub did_from_dict : (now : ℕ) → Fields → Decoded BorderDid
unfolding service_from_dict
did_from_dict now d = do
  wallet_address ← required "wallet_address" d >>= as_text
  public_key_hex ← required "public_key_hex" d >>= as_text
  created_at ← as_seconds (find_or "created_at" (seconds now) d)
  updated_at ← as_seconds (find_or "updated_at" (seconds now) d)
  handle ← as_text? (find_or "handle" null d)
  services ← as_array (find_or "services" (array nil) d) >>= each service_from_dict
  metadata ← as_object (find_or "metadata" (object end) d) >>= to_texts
  read (record {
    wallet_address = wallet_address;
    public_key_hex = public_key_hex;
    created_at = created_at;
    updated_at = updated_at;
    handle = handle;
    services = services;
    metadata = metadata;
  })

unfoldable pub claim_to_dict : VerifiableClaim → Fields
claim_to_dict c = field "claim_id" (text c.claim_id) (
    field "issuer_did" (text c.issuer_did) (
      field "subject_did" (text c.subject_did) (
        field "claim_type" (text (claim_value c.claim_type)) (
          field "claim_data" (object c.claim_data) (
            field "issued_at" (seconds c.issued_at) (
              field "expires_at" (seconds_or_null c.expires_at)
                (field "signature" (text_or_null c.signature) (end))))))))

unfoldable pub claim_from_dict : Fields → Decoded VerifiableClaim
claim_from_dict d = do
  claim_id ← required "claim_id" d >>= as_text
  issuer_did ← required "issuer_did" d >>= as_text
  subject_did ← required "subject_did" d >>= as_text
  claim_type ← required "claim_type" d >>= as_text >>= claim_of
  claim_data ← required "claim_data" d >>= as_object
  issued_at ← required "issued_at" d >>= as_seconds
  expires_at ← as_seconds? (find_or "expires_at" null d)
  signature ← as_text? (find_or "signature" null d)
  read (record {
    claim_id = claim_id;
    issuer_did = issuer_did;
    subject_did = subject_did;
    claim_type = claim_type;
    claim_data = claim_data;
    issued_at = issued_at;
    expires_at = expires_at;
    signature = signature;
  })

service_from_dict-to_dict : (s : ServiceEndpoint) → service_from_dict (service_to_dict s) ≡ read s
unfolding service_from_dict service_to_dict
service_from_dict-to_dict s = rw service_of-value refl

-- What `to_dict` of a document gives is read back as the document, whatever the time.
pub did_from_dict-to_dict : (now : ℕ) (d : BorderDid) → did_from_dict now (did_to_dict d) ≡ read d
unfolding did_from_dict did_to_dict
did_from_dict-to_dict now d =
    rw
      (
        as_text?-text_or_null,
        each-objects service_to_dict service_from_dict service_from_dict-to_dict d.services,
        to_texts-of_texts d.metadata,
      )
      refl

-- The same of a claim.
pub claim_from_dict-to_dict : (c : VerifiableClaim) → claim_from_dict (claim_to_dict c) ≡ read c
unfolding claim_from_dict claim_to_dict
claim_from_dict-to_dict c =
    rw (claim_of-value, as_seconds?-seconds_or_null, as_text?-text_or_null c.signature) refl

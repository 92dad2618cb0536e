-- ===== src/ProofDicts/Codec.antt =====
-- `to_dict` and `from_dict` of the three proof records of border/blockchain/block.py.
use border.Prelude.{◌≡◌, refl}
use border.Decoding.{read, as_text?-text_or_null}
use border.ProofDicts.{compute_to_dict, compute_from_dict, storage_to_dict, storage_from_dict}
use border.Proofs.{
  ComputeProof, StorageProof, BandwidthProof, bandwidth_to_dict, bandwidth_from_dict,
}

pub bandwidth_from_dict-to_dict :
    (p : BandwidthProof) → bandwidth_from_dict (bandwidth_to_dict p) ≡ read p
unfolding bandwidth_from_dict bandwidth_to_dict
bandwidth_from_dict-to_dict p = rw as_text?-text_or_null

pub compute_from_dict-to_dict : (p : ComputeProof) → compute_from_dict (compute_to_dict p) ≡ read p
unfolding compute_from_dict compute_to_dict
compute_from_dict-to_dict p = refl

pub storage_from_dict-to_dict : (p : StorageProof) → storage_from_dict (storage_to_dict p) ≡ read p
unfolding storage_from_dict storage_to_dict
storage_from_dict-to_dict p = refl

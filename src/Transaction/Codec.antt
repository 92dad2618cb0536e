-- ===== src/Transaction/Codec.antt =====
-- `to_dict` and `from_dict` of a transaction.
use border.Prelude.{◌≡◌}
use border.Decoding.{read, as_text?-text_or_null}
use border.Transaction.{Transaction, to_dict, from_dict}

-- Reading back what was written gives the same transaction.
pub from_dict-to_dict : (tx : Transaction) → from_dict (to_dict tx) ≡ read tx
unfolding from_dict to_dict
from_dict-to_dict tx = rw as_text?-text_or_null

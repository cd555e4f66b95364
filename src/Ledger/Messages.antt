-- ===== src/Ledger/Messages.antt =====
-- ledger/store/message.go: deliveries of a chat platform, each claimed once. The state is the ids in
-- processed_messages; the sender is only recorded.
pub mod Once
use stelfin.Prelude.{List, [], ◌∷◌, Bool, true, false, if◌then◌else◌, Result, ok, err, any}
use stelfin.Text.{Bytes, bytes_eq, is_empty}

pub data Error : Type 0 where
  message_without_id : Error

-- ClaimMessage: whether this caller is the first with the id.
unfoldable pub claim_message : List Bytes → Bytes → List Bytes × Result Error Bool
claim_message processed id =
    if is_empty id
    then (processed, err message_without_id)
    else if any (bytes_eq id) processed
    then (processed, ok false)
    else (id ∷ processed, ok true)

-- ===== src/Connection/Confirm.antt =====
-- The map confirmReceived of connection.go. Each function holds confirmLock throughout.
use lachain_communication_hu.Base.{
  nat_eq, ℕ, Bool, true, false, none, some, List, lookup, insert, delete,
}

abbrev pub Confirmations : Type 0
Confirmations = List (ℕ × Bool)

-- confirmationReceived: an id that was never sent is ignored.
unfoldable pub confirmation_received : ℕ → Confirmations → Confirmations
confirmation_received id m = elim (lookup id m) [ none ↦ m | some old ↦ insert id true m ]

-- checkConfirmation: the value, or false, and whether there is one.
unfoldable pub check_confirmation : ℕ → Confirmations → Bool × Bool
check_confirmation id m = elim (lookup id m) [
  | none ↦ (false, false)
  | some confirm ↦ (confirm, true)
]

-- addMsgIdToConfirm
unfoldable pub add_msg_id_to_confirm : ℕ → Confirmations → Confirmations
add_msg_id_to_confirm id m = insert id false m

-- removeMsgIdFromConfirm
unfoldable pub remove_msg_id_from_confirm : ℕ → Confirmations → Confirmations
remove_msg_id_from_confirm id m = delete id m

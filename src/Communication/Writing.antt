-- ===== src/Communication/Writing.antt =====
-- NewFrame, and Write of communication.go. The stream's Write is a parameter: the stream behind it, or
-- an error.
use lachain_communication_hu.Base.{ℕ, Option, List, nat_eq, text_keys}
use lachain_communication_hu.Utils.Random.{Generator, get_random_uint64}
use lachain_communication_hu.Communication.Frame.{MessageFrame, new_frame_with_id, encode}

unfoldable pub new_frame : Generator → ℕ → ℕ → List ℕ → MessageFrame
new_frame rand now kind payload = new_frame_with_id kind payload (get_random_uint64 rand now)

unfoldable pub write : {S : Type 0} → (List ℕ → S → Option S) → MessageFrame → S → Option S
write put frame s = put (encode frame) s

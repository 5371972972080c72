-- ===== src/Connection/SignatureExamples.antt =====
-- The signature of one node at another.
use lachain_communication_hu.Base.{
  ℕ, ◌≡◌, refl, true, some, List, [], ◌∷◌, ◌++◌, arith, take, nat_eq, text_keys,
}
use lachain_communication_hu.Utils.Toy.{toy, toy_signature}
use lachain_communication_hu.Utils.Crypto.{
  la_sign, recover_with, encoded_rec_id, public_key_to_hex_string,
}
use lachain_communication_hu.Communication.Frame.{MessageFrame}
use lachain_communication_hu.Connection.State.{Connection, init}
use lachain_communication_hu.Connection.Handshake.{
  accept_key, handle_signature, validate_public_key,
}
use lachain_communication_hu.Connection.SendCycle.{second}
use lachain_communication_hu.Connection.Signature.{
  written, send_signature_round, handle_signature-send_signature_round,
}

abbrev signed_bytes : List ℕ
signed_bytes = take 64 (toy_signature (1 ∷ []) (5 ∷ [])) ++ 86 ∷ []

-- The sender, with peer id 1, and its connection at the other node.
abbrev sender : Connection
unfolding init
sender = record (init (2 ∷ []) (9 ∷ []) (4 ∷ 6 ∷ []) 0) {
  signature = some signed_bytes;
  outbound_stream = some 3;
}

abbrev receiver : Connection
unfolding init
receiver = init (1 ∷ []) (9 ∷ []) [] 0

handle_signature-send_signature_round_example :
    (f : MessageFrame) × (send_signature_round 25 second 77 true sender ≡ some (written f))
    × (handle_signature toy 25 f.payload receiver
        ≡ some (
            accept_key toy 25
              (public_key_to_hex_string toy (9 ∷ 1 ∷ []))
              (record receiver { peer_address = some (4 ∷ 6 ∷ []) })))
unfolding init la_sign recover_with encoded_rec_id validate_public_key
handle_signature-send_signature_round_example =
    handle_signature-send_signature_round toy 25 sender receiver (1 ∷ []) (5 ∷ [])
      (take 64 (toy_signature (1 ∷ []) (5 ∷ []))) signed_bytes (9 ∷ 1 ∷ []) 1 second 77 3
      (omega arith) (omega arith) (omega arith) refl refl refl refl refl (λ e. cc) refl refl
      (λ e. cc) refl refl

-- ===== src/Connection/LifeExamples.antt =====
-- A connection that is opened, takes a key, is terminated and gets a stream again; and two messages
-- of one reading of the clock.
use lachain_communication_hu.Base.{
  ℕ, zero, suc, ◌≡◌, refl, false, Option, none, some, List, [], ◌∷◌, arith, length, All, nat_eq,
  text_keys,
}
use lachain_communication_hu.Utils.Toy.{toy}
use lachain_communication_hu.Utils.Platform.{Platform}
use lachain_communication_hu.Utils.Queue.{MessageKind}
use lachain_communication_hu.Utils.Random.{Generator, new_envelop}
use lachain_communication_hu.Binary.{IsByte}
use lachain_communication_hu.Connection.Spam.{new_filter, admit}
use lachain_communication_hu.Connection.Window.{new_filter-Tracks}
use lachain_communication_hu.Connection.Collision.{admit-new_envelop}
use lachain_communication_hu.Connection.State.{Connection, init, set_inbound_stream, terminate}
use lachain_communication_hu.Connection.Handshake.{try_set_peer_public_key}
use lachain_communication_hu.Connection.Lifecycle.Kept.{Kept}
use lachain_communication_hu.Connection.Lifecycle.Changes.{
  HasKeys, here, next, reconnects, Life-Kept,
}
use lachain_communication_hu.Connection.Lifecycle.Termination.{Terminated, terminate_lem}

abbrev keyed : Platform
keyed = record toy { compress_pubkey = λ key. 2 ∷ key; decompress_pubkey = some_key }
  where
    some_key : List ℕ → Option (List ℕ)
    some_key [] = none
    some_key (b ∷ bs) = some bs

keyed-HasKeys : HasKeys keyed
keyed-HasKeys = record { compressed = λ key e. cc; no_bytes = refl }

abbrev fresh : Connection
fresh = init (1 ∷ []) (2 ∷ []) [] 5

abbrev opened : Connection
opened = (set_inbound_stream 3 fresh).0

abbrev told : Connection
told = (try_set_peer_public_key keyed 25 (0x30 ∷ 0x32 ∷ []) opened).1

abbrev closed : Connection
closed = (terminate 8 told).0

abbrev reopened : Connection
reopened = (set_inbound_stream 4 closed).0

Life-Kept_example : Kept closed reopened
Life-Kept_example = Life-Kept keyed 25 keyed-HasKeys (next here (reconnects 4))

terminate_lem_example : Terminated 8 opened (terminate 8 opened)
terminate_lem_example = terminate_lem 8 opened

abbrev sevens : ℕ → List ℕ
sevens zero = []
sevens (suc n) = 7 ∷ sevens n

length-sevens : (n : ℕ) → length (sevens n) ≡ n
length-sevens zero = refl
length-sevens (suc n) = omega (arith, length-sevens n)

sevens-IsByte : (n : ℕ) → All IsByte (sevens n)
sevens-IsByte zero = tt
sevens-IsByte (suc n) = (omega arith, sevens-IsByte n)

abbrev dice : Generator
dice = record {
  read = λ seed n. sevens n;
  length-read = λ seed n. length-sevens n;
  read-IsByte = λ seed n. sevens-IsByte n;
}

admit-new_envelop_example :
    (admit
      (new_envelop dice 99 (some (2 ∷ [])) MessageKind.consensus).msg_id
      (admit (new_envelop dice 99 (some (1 ∷ [])) MessageKind.message).msg_id new_filter).1).0
    ≡ false
admit-new_envelop_example =
    admit-new_envelop dice 99 (some (1 ∷ [])) (some (2 ∷ [])) MessageKind.message
      MessageKind.consensus 0 new_filter (omega arith) new_filter-Tracks

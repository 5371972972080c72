-- ===== src/Utils/Random.antt =====
-- utils/utilities.go, and NewEnvelop. math/rand's generator is a parameter: the bytes that it yields
-- after it was seeded. Each call seeds it with the clock, in nanoseconds.
use lachain_communication_hu.Base.{ℕ, ◌≡◌, Option, List, length, All, nat_eq, text_keys}
use lachain_communication_hu.Binary.{IsByte, word}
use lachain_communication_hu.Utils.Queue.{MessageEnvelop, MessageKind, new_envelop_with_id}

-- rand.Seed followed by rand.Read, which no other goroutine interrupts.
pub record Generator : Type 0 where
  pub read : ℕ → ℕ → List ℕ
  pub length-read : (seed n : ℕ) → length (read seed n) ≡ n
  pub read-IsByte : (seed n : ℕ) → All IsByte (read seed n)

module _ (rand : Generator) (now : ℕ) where
  unfoldable pub get_random_bytes : ℕ → List ℕ
  get_random_bytes len = rand.read now len

  unfoldable pub get_random_uint64 : ℕ
  unfolding get_random_bytes
  get_random_uint64 = word (get_random_bytes 8)

  unfoldable pub get_random_uint32 : ℕ
  unfolding get_random_bytes
  get_random_uint32 = word (get_random_bytes 4)

  -- NewEnvelop
  unfoldable pub new_envelop : Option (List ℕ) → MessageKind → MessageEnvelop
  unfolding get_random_uint64
  new_envelop payload kind = new_envelop_with_id payload kind get_random_uint64

-- ===== src/Communication/Examples.antt =====
-- Concrete frames and streams, and the theorems of the other children on them.
use lachain_communication_hu.Base.{
  ℕ, ◌≡◌, refl, sym, ap, ◌≢◌, ◌↔◌, inl, List, [], ◌∷◌, ◌++◌, arith, take, drop, All, ok, err, panic,
}
use lachain_communication_hu.Communication.Frame.{
  MessageFrame, IsFrame, new_frame_with_id, encode, msg_integrity,
}
use lachain_communication_hu.Communication.Checksum.{checksum_ieee}
use lachain_communication_hu.Communication.Reader.{
  Reader, Stream, contents, new_reader, read_once, read_from_reader,
}
use lachain_communication_hu.Communication.RoundTrip.{read_from_reader-encode}
use lachain_communication_hu.Communication.Encodings.{read_from_reader-ok}
use lachain_communication_hu.Communication.Contents.{Crashing, read_from_reader-panic}
use lachain_communication_hu.Communication.Corruption.{
  read_from_reader-corrupted, read_from_reader-other_kind,
}
use lachain_communication_hu.Communication.Lookahead.{read_once_lookahead}
use lachain_communication_hu.Binary.{put_uint32, put_word, word, put_uint64}

abbrev hello : MessageFrame
hello = new_frame_with_id 0 (0x68 ∷ 0x69 ∷ []) 7

hello-IsFrame : IsFrame hello
hello-IsFrame = record {
  kind_byte = omega arith;
  id_word = omega arith;
  bytes = omega arith;
  fits = omega arith;
}

abbrev hello_bytes : List ℕ
hello_bytes =
    15 ∷ 0 ∷ 0 ∷ 0 ∷ 0 ∷ 7 ∷ 0 ∷ 0 ∷ 0 ∷ 0 ∷ 0 ∷ 0 ∷ 0 ∷ 0x68 ∷ 0x69 ∷ 0x5c ∷ 0x4b ∷ 0x1c ∷ 0x98
    ∷ []

encode-hello : encode hello ≡ hello_bytes
unfolding encode put_uint32 put_word put_uint64 checksum_ieee
encode-hello = refl

-- The frame arrives in two pieces, the second with two bytes of what follows.
abbrev pieces : Stream
pieces = take 9 hello_bytes ∷ (drop 9 hello_bytes ++ 1 ∷ 2 ∷ []) ∷ []

pieces-NonEmpty : All (λ c. c ≢ []) pieces
pieces-NonEmpty = (λ e. cc, (λ e. cc, tt))

read_from_reader-encode_example :
    (r : Reader) × (read_from_reader (new_reader pieces) ≡ (ok hello, r))
    × (contents r ≡ 1 ∷ 2 ∷ [])
read_from_reader-encode_example =
    read_from_reader-encode hello [] pieces (1 ∷ 2 ∷ []) hello-IsFrame
      (ap (λ (bs : List ℕ). bs ++ 1 ∷ 2 ∷ []) (sym encode-hello)) pieces-NonEmpty

abbrev whole_pieces : Stream
whole_pieces = take 9 hello_bytes ∷ drop 9 hello_bytes ∷ []

-- Two frames in one chunk: the second is gone.
read_once_lookahead_example : read_once ((encode hello ++ encode hello) ∷ []) ≡ (ok hello, [])
read_once_lookahead_example =
    read_once_lookahead hello (encode hello) [] hello-IsFrame (rw encode-hello (omega arith))

-- The frame is what the two pieces begin with.
read_from_reader-ok_example :
    ((read_from_reader (new_reader pieces)).0 ≡ ok hello)
    ↔ (IsFrame hello × ((rest : List ℕ) × (hello_bytes ++ 1 ∷ 2 ∷ [] ≡ encode hello ++ rest)))
read_from_reader-ok_example =
    read_from_reader-ok (new_reader pieces) hello pieces-NonEmpty (omega arith)

-- Eight bytes that crash a node.
abbrev crasher : Reader
crasher = record { buffered = 4 ∷ 0 ∷ 0 ∷ 0 ∷ 0 ∷ 0 ∷ 0 ∷ 0 ∷ []; stream = [] }

crasher-Crashing : Crashing (contents crasher)
unfolding word
crasher-Crashing = record {
  holds_prefix = omega arith;
  least = omega arith;
  most = omega arith;
  holds_body = omega arith;
  passes = inl refl;
}

read_from_reader-panic_example :
    ((read_from_reader crasher).0 ≡ panic) ↔ Crashing (contents crasher)
read_from_reader-panic_example = read_from_reader-panic crasher tt

crash : (read_from_reader crasher).0 ≡ panic
crash = read_from_reader-panic_example.1 crasher-Crashing

-- One bit of the second letter is changed on the way.
abbrev corrupted : Reader
corrupted = record {
  buffered = take 14 hello_bytes ++ 0x68 ∷ (drop 15 hello_bytes ++ 1 ∷ []);
  stream = [];
}

read_from_reader-corrupted_example : (read_from_reader corrupted).0 ≡ err msg_integrity
read_from_reader-corrupted_example =
    read_from_reader-corrupted hello corrupted (take 14 hello_bytes) (drop 15 hello_bytes) (1 ∷ [])
      0x69 0x68 hello-IsFrame tt encode-hello (omega arith) (omega arith) (omega arith) refl

-- The kind of the frame is changed to that of a consensus message.
abbrev relabelled : Reader
relabelled = record { buffered = take 4 hello_bytes ++ 6 ∷ drop 5 hello_bytes; stream = [] }

read_from_reader-other_kind_example :
    (read_from_reader relabelled).0 ≡ ok (record hello { kind = 6 })
read_from_reader-other_kind_example =
    read_from_reader-other_kind hello relabelled (take 4 hello_bytes) (drop 5 hello_bytes) [] 0 6
      hello-IsFrame tt encode-hello refl (omega arith) refl

-- ===== src/Communication/Frame.antt =====
-- MessageFrame, its constructors, Encode, and the part of ReadFromReader that takes a frame's bytes
-- apart once they have been read.
use lachain_communication_hu.Base.{
  ℕ, ◌+◌, ◌-◌, ◌%◌, ◌^◌, ◌<◌, List, [], ◌∷◌, ◌++◌, Outcome, ok, ◌>>=◌, ◌>>◌, guard, slice, length,
  All, ◌==◌, if◌then◌else◌,
}
use lachain_communication_hu.Binary.{IsByte, put_uint32, put_uint64, word}
use lachain_communication_hu.Communication.Checksum.{checksum_ieee}

pub record MessageFrame : Type 0 where
  pub kind : ℕ
  pub msg_id : ℕ
  pub payload : List ℕ

-- The frame kinds of the protocol.
pub data FrameKind : Type 0 where
  message signature get_peers_reply message_confirm_request confirm_reply : FrameKind
  unknown : ℕ → FrameKind

abbrev pub kind_of_byte : ℕ → FrameKind
kind_of_byte k =
    if k == 0
    then message
    else if k == 1
    then signature
    else if k == 2
    then get_peers_reply
    else if k == 3
    then message_confirm_request
    else if k == 4
    then confirm_reply
    else unknown k

abbrev pub new_frame_with_id : ℕ → List ℕ → ℕ → MessageFrame
new_frame_with_id kind payload msg_id = record { kind = kind; msg_id = msg_id; payload = payload }

-- The bytes that the checksum covers: message id and data, not the kind.
unfoldable pub checked_bytes : MessageFrame → List ℕ
checked_bytes f = put_uint64 f.msg_id ++ f.payload

-- The buffer that Encode fills, field by field. `uint32(msgLength)` wraps.
unfoldable pub encode : MessageFrame → List ℕ
unfolding checked_bytes
encode f =
    let msg_length = 1 + 8 + length f.payload + 4 in
    put_uint32 (msg_length % 2 ^ 32)
    ++ ((f.kind % 256) ∷ (checked_bytes f ++ put_uint32 (checksum_ieee (checked_bytes f))))

-- What a frame is in Go by its types, and a length that its prefix can hold.
pub record IsFrame (f : MessageFrame) : Type 0 where
  pub kind_byte : f.kind < 256
  pub id_word : f.msg_id < 2 ^ 64
  pub bytes : All IsByte f.payload
  pub fits : length f.payload + 13 < 2 ^ 32

pub data ReadError : Type 0 where
  eof unexpected_eof msg_integrity : ReadError

abbrev pub head_or : ℕ → List ℕ → ℕ
head_or d [] = d
head_or d (b ∷ bs) = b

-- ExtractLength, which panics on fewer than four bytes.
unfoldable pub extract_length : List ℕ → Outcome ReadError ℕ
extract_length msg = do first ← slice msg 0 4; ok (word first)

-- The fields of the frame that ReadFromReader returns. Each slice expression of the source is a
-- `slice` here, and panics where it does.
unfoldable pub parse_fields : List ℕ → Outcome ReadError MessageFrame
parse_fields result = do
  kind ← slice result 0 1
  id ← slice result 1 (1 + 8)
  payload ← slice result (1 + 8) (length result - 4)
  ok (record { kind = head_or 0 kind; msg_id = word id; payload = payload })

-- ReadFromReader from the checksum on, in the source's order.
unfoldable pub parse_body : List ℕ → Outcome ReadError MessageFrame
parse_body result = do
  stored ← slice result (length result - 4) (length result)
  checked ← slice result 1 (length result - 4)
  guard (word stored == checksum_ieee checked) msg_integrity
  parse_fields result

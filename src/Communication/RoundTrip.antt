-- ===== src/Communication/RoundTrip.antt =====
-- Reading what Encode wrote, wherever the stream is cut into chunks.
use lachain_communication_hu.Binary.{
  length-put_uint32, put_word, length-put_word, put_uint32, put_uint64, word, word-put_word,
}
use lachain_communication_hu.Base.{
  le→ltb, drop-append_seam, take-append_seam, slice_end, ℕ, ◌+◌, ◌-◌, ◌%◌, ◌^◌, ◌≤◌, ◌<◌, ◌≡◌, refl,
  sym, ap, ◌∙◌, List, [], ◌∷◌, ◌++◌, append-nil, append_assoc, arith, length, take, drop, All,
  concat, length-append, Outcome, ok, slice, slice_middle, ==_self,
}
use lachain_communication_hu.Communication.Reader.{
  read_once, Reader, Stream, contents, read_full, read_from_reader,
}
use lachain_communication_hu.Communication.Frame.{
  MessageFrame, ReadError, IsFrame, checked_bytes, encode, parse_fields, parse_body, extract_length,
}
use lachain_communication_hu.Communication.Checksum.{checksum_ieee, checksum_ieee-lt}
use lachain_communication_hu.Communication.Reading.{Took, read_full-Took, NonEmpty}

-- A read with outcome `o`; the bytes `rest` behind what it took are still there, before the chunks
-- `later`.
pub record Read (o : Outcome ReadError MessageFrame) (rest : List ℕ) (later : Stream)
    (r : Outcome ReadError MessageFrame × Reader) : Type 0 where
  pub left : List ℕ
  pub chunks : Stream
  pub result : r ≡ (o, record { buffered = left; stream = chunks ++ later })
  pub remains : left ++ concat chunks ≡ rest
  pub nonempty : All NonEmpty chunks

unfoldable pub body : MessageFrame → List ℕ
body f = (f.kind % 256) ∷ (checked_bytes f ++ put_uint32 (checksum_ieee (checked_bytes f)))

pub length-checked_bytes : (f : MessageFrame) → length (checked_bytes f) ≡ 8 + length f.payload
unfolding checked_bytes put_uint64
length-checked_bytes f =
    omega (arith, length-append (put_word 8 f.msg_id) f.payload, length-put_word 8 f.msg_id)

pub length-body : (f : MessageFrame) → length (body f) ≡ length f.payload + 13
unfolding body put_uint32
length-body f = omega (
  arith,
  length-append (checked_bytes f) (put_word 4 (checksum_ieee (checked_bytes f))),
  length-checked_bytes f,
  length-put_word 4 (checksum_ieee (checked_bytes f)),
)

trailer : MessageFrame → List ℕ
trailer f = put_uint32 (checksum_ieee (checked_bytes f))

length-trailer : (f : MessageFrame) → length (trailer f) ≡ 4
unfolding trailer put_uint32
length-trailer f = length-put_word 4 (checksum_ieee (checked_bytes f))

word-trailer : (f : MessageFrame) → word (trailer f) ≡ checksum_ieee (checked_bytes f)
unfolding trailer put_uint32
word-trailer f = word-put_word 4 _ (checksum_ieee-lt (checked_bytes f))

module _ (f : MessageFrame) (v : IsFrame f) where
  kind_byte : ◌≡◌ {A = List ℕ} ((f.kind % 256) ∷ []) (f.kind ∷ [])
  kind_byte = ap (λ (k : ℕ). k ∷ []) (omega (arith, v.kind_byte))

  slice_kind : slice {E = ReadError} (body f) 0 1 ≡ ok (f.kind ∷ [])
  unfolding body
  slice_kind =
      slice_middle [] ((f.kind % 256) ∷ [])
        (checked_bytes f ++ put_uint32 (checksum_ieee (checked_bytes f))) 0 1 refl (omega arith)
      ∙ ap ok kind_byte

  slice_id : slice {E = ReadError} (body f) 1 9 ≡ ok (put_uint64 f.msg_id)
  unfolding body checked_bytes put_uint64
  slice_id = rw (append_assoc (put_word 8 f.msg_id) f.payload) (
      slice_middle ((f.kind % 256) ∷ []) (put_word 8 f.msg_id) _ 1 9 refl
        (omega (arith, length-put_word 8 f.msg_id)))

  slice_payload : slice {E = ReadError} (body f) 9 (length (body f) - 4) ≡ ok f.payload
  unfolding checked_bytes put_uint64
  slice_payload = rw (length-body f) (
      unfold body in
      rw (append_assoc (put_word 8 f.msg_id) f.payload) (
        slice_middle ((f.kind % 256) ∷ put_word 8 f.msg_id) f.payload _ 9 _
          (omega (arith, length-put_word 8 f.msg_id)) (omega arith)))

  slice_checked : slice {E = ReadError} (body f) 1 (length (body f) - 4) ≡ ok (checked_bytes f)
  slice_checked = rw (length-body f) (
      unfold body in
      slice_middle ((f.kind % 256) ∷ []) (checked_bytes f) _ 1 _ refl
        (omega (arith, length-checked_bytes f)))

  slice-trailer :
      slice {E = ReadError} (body f) (length (body f) - 4) (length (body f)) ≡ ok (trailer f)
  unfolding trailer
  slice-trailer = rw (length-body f) (
      unfold body in
      slice_end ((f.kind % 256) ∷ checked_bytes f) (trailer f) _ _
        (omega (arith, length-checked_bytes f)) (omega (arith, length-trailer f)))

  pub parse_body-body : parse_body (body f) ≡ ok f
  unfolding parse_body parse_fields put_uint64
  parse_body-body = rw (
    slice-trailer,
    slice_checked,
    word-trailer f,
    ==_self (checksum_ieee (checked_bytes f)),
    slice_kind,
    slice_id,
    slice_payload,
    word-put_word 8 f.msg_id (omega (arith, v.id_word)),
  )

pub length-encode : (f : MessageFrame) → length (encode f) ≡ length f.payload + 17
unfolding encode put_uint32 body
length-encode f = omega (
  arith,
  length-put_word 4 ((1 + 8 + length f.payload + 4) % 2 ^ 32),
  length-append (put_word 4 ((1 + 8 + length f.payload + 4) % 2 ^ 32)) (body f),
  length-body f,
)

-- A well-formed frame is its body behind the body's length.
pub encode-body : (f : MessageFrame) → IsFrame f → encode f ≡ put_uint32 (length (body f)) ++ body f
unfolding encode body
encode-body f v =
    let e : (1 + 8 + length f.payload + 4) % 2 ^ 32 ≡ length (body f) =
      omega (arith, v.fits, length-body f) in
    ap (λ (n : ℕ). put_uint32 n ++ body f) e

pub extract_length-put_uint32 : (n : ℕ) → n < 2 ^ 32 → extract_length (put_uint32 n) ≡ ok n
unfolding extract_length put_uint32
extract_length-put_uint32 n h =
    rw (slice_end {E = ReadError} [] (put_word 4 n) 0 4 refl (omega (arith, length-put_word 4 n)))
      (ap ok (word-put_word 4 n h))

-- A reader that has a body behind its length before it takes that body apart.
pub read_from_reader-Read :
    (n : ℕ) (whole b : List ℕ) (front later : Stream) (rest : List ℕ)
    → length whole ≡ n
    → 4 ≤ n
    → n < 2 ^ 32
    → b ++ concat front ≡ put_uint32 n ++ (whole ++ rest)
    → All NonEmpty front
    → Read
        (parse_body whole)
        rest
        later
        (read_from_reader (record { buffered = b; stream = front ++ later }))
unfolding read_from_reader
read_from_reader-Read n whole b front later rest size lo hi split ne = record {
  left = second.left;
  chunks = second.chunks;
  result = rw (
    first.result,
    got_prefix,
    extract_length-put_uint32 n hi,
    le→ltb n 4 lo,
    second.result,
    got_whole,
  );
  remains = second.remains ∙ ap (drop n) behind ∙ drop-append_seam n whole rest size;
  nonempty = second.nonempty;
}
  where
    four : length (put_uint32 n) ≡ 4
    four = length-put_uint32 n

    first :
        Took 4
          (take 4 (b ++ concat front))
          (b ∷ front)
          later
          (read_full 4 (record { buffered = b; stream = front ++ later }))
    first =
        read_full-Took 4 b front later
          (omega (arith, ap length split, length-append (put_uint32 n) (whole ++ rest), four)) ne

    got_prefix : take 4 (b ++ concat front) ≡ put_uint32 n
    got_prefix = ap (take 4) split ∙ take-append_seam 4 (put_uint32 n) (whole ++ rest) four

    behind : first.left ++ concat first.chunks ≡ whole ++ rest
    behind =
        first.remains ∙ ap (drop 4) split ∙ drop-append_seam 4 (put_uint32 n) (whole ++ rest) four

    second :
        Took n
          (take n (first.left ++ concat first.chunks))
          (first.left ∷ first.chunks)
          later
          (read_full n (record { buffered = first.left; stream = first.chunks ++ later }))
    second =
        read_full-Took n first.left first.chunks later
          (omega (arith, ap length behind, length-append whole rest)) first.nonempty

    got_whole : take n (first.left ++ concat first.chunks) ≡ whole
    got_whole = ap (take n) behind ∙ take-append_seam n whole rest size

read_from_reader-frame :
    (f : MessageFrame) (b : List ℕ) (front later : Stream) (rest : List ℕ)
    → IsFrame f
    → b ++ concat front ≡ encode f ++ rest
    → All NonEmpty front
    → Read (ok f) rest later (read_from_reader (record { buffered = b; stream = front ++ later }))
read_from_reader-frame f b front later rest v e ne = rw (parse_body-body f v) at (
    read_from_reader-Read (length (body f)) (body f) b front later rest refl
      (omega (arith, length-body f)) (omega (arith, length-body f, v.fits))
      (e ∙ rw (encode-body f v) (append_assoc (put_uint32 (length (body f))) (body f) rest)) ne)

exhausted : (b : List ℕ) (s : Stream) → b ++ concat s ≡ [] → All NonEmpty s → s ≡ []
exhausted b [] e ne = refl
exhausted [] ([] ∷ s) e (n, ne) = absurd (n refl)
exhausted [] ((x ∷ c) ∷ s) e ne = cc
exhausted (x ∷ b) (c ∷ s) e ne = cc

-- A reader that has the bytes of a well-formed frame before it, wherever the chunks are cut, reads
-- that frame, and what it can still read is what followed the frame.
pub read_from_reader-encode :
    (f : MessageFrame) (b : List ℕ) (s : Stream) (rest : List ℕ)
    → IsFrame f
    → b ++ concat s ≡ encode f ++ rest
    → All NonEmpty s
    → (r : Reader) × (read_from_reader (record { buffered = b; stream = s }) ≡ (ok f, r))
      × (contents r ≡ rest)
read_from_reader-encode f b s rest v e ne =
    let t : Read (ok f) rest [] (read_from_reader (record { buffered = b; stream = s ++ [] })) =
      read_from_reader-frame f b s [] rest v e ne in
    (
      record { buffered = t.left; stream = t.chunks },
      rw (append-nil s, append-nil t.chunks) at t.result,
      t.remains,
    )

-- A frame that ends where a chunk ends is read by ReadOnce, and the later chunks stay on the stream.
pub read_once-encode :
    (f : MessageFrame) (front later : Stream)
    → IsFrame f
    → concat front ≡ encode f
    → All NonEmpty front
    → read_once (front ++ later) ≡ (ok f, later)
unfolding read_once
read_once-encode f front later v e ne =
    let t : Read (ok f) [] later
        (read_from_reader (record { buffered = []; stream = front ++ later })) =
      read_from_reader-frame f [] front later [] v (e ∙ sym (append-nil (encode f))) ne in
    rw (t.result, exhausted t.left t.chunks t.remains t.nonempty)

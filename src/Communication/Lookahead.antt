-- ===== src/Communication/Lookahead.antt =====
-- ReadOnce's reader reads ahead, and takes what it has read ahead with it.
use lachain_communication_hu.Base.{
  drop-append_seam, take-append_seam, le→leb, drop_all, take_all, le→ltb, lt→leb, ℕ, ◌≤◌, ◌<◌, ◌≡◌,
  refl, ap, ◌∙◌, List, ◌∷◌, ◌++◌, append_assoc, arith, length, take, drop, length-append, ok,
}
use native.Mathlib.Nat.{sub-zero}
use lachain_communication_hu.Binary.{put_uint32, length-put_uint32}
use lachain_communication_hu.Communication.RoundTrip.{
  body, length-body, encode-body, extract_length-put_uint32, parse_body-body,
}
use lachain_communication_hu.Communication.Frame.{MessageFrame, IsFrame, encode}
use lachain_communication_hu.Communication.Reader.{
  Stream, new_reader, buffer_size, read_more, read_full, read_from_reader, read_once,
}

-- A first chunk that the buffer holds is read into it whole.
read_full-chunk :
    (n : ℕ) (c : List ℕ) (s : Stream)
    → 0 < n
    → n ≤ length c
    → length c ≤ buffer_size
    → n < buffer_size
    → read_full n (new_reader (c ∷ s)) ≡ read_full n (record { buffered = c; stream = s })
unfolding read_full read_more
read_full-chunk n c s p h fits small = rw (
  lt→leb n 0 p,
  sub-zero n,
  le→ltb (length c) n h,
  lt→leb buffer_size n small,
  take_all buffer_size c fits,
  drop_all buffer_size c fits,
  le→leb n (length c) h,
)

read_full-buffered :
    (n : ℕ) (b : List ℕ) (s : Stream)
    → n ≤ length b
    → read_full n (record { buffered = b; stream = s })
      ≡ (ok (take n b), record { buffered = drop n b; stream = s })
unfolding read_full
read_full-buffered n b s h = rw (le→leb n (length b) h)

-- A frame at the head of the first chunk, with any bytes `lost` behind it that arrived in the same
-- chunk: if the buffer holds the chunk, ReadOnce returns the frame, and the next call starts at the
-- chunk after. The bytes behind the frame, whole frames among them, are never read.
pub read_once_lookahead :
    (f : MessageFrame) (lost : List ℕ) (later : Stream)
    → IsFrame f
    → length (encode f ++ lost) ≤ buffer_size
    → read_once ((encode f ++ lost) ∷ later) ≡ (ok f, later)
unfolding read_once read_from_reader
read_once_lookahead f lost later v fits = rw (
  read_full-chunk 4 chunk later (omega arith) long fits (omega arith),
  read_full-buffered 4 chunk later long,
  got_prefix,
  extract_length-put_uint32 n (omega (arith, length-body f, v.fits)),
  le→ltb n 4 (omega (arith, length-body f)),
  behind,
  read_full-buffered n (body f ++ lost) later (omega (arith, length-append (body f) lost)),
  take-append_seam n (body f) lost refl,
  parse_body-body f v,
)
  where
    n : ℕ
    n = length (body f)

    chunk : List ℕ
    chunk = encode f ++ lost

    split : chunk ≡ put_uint32 n ++ (body f ++ lost)
    split = rw (encode-body f v) (append_assoc (put_uint32 n) (body f) lost)

    long : 4 ≤ length chunk
    long =
        omega (
          arith,
          ap length split,
          length-append (put_uint32 n) (body f ++ lost),
          length-put_uint32 n,
        )

    got_prefix : take 4 chunk ≡ put_uint32 n
    got_prefix =
        ap (take 4) split ∙ take-append_seam 4 (put_uint32 n) (body f ++ lost) (length-put_uint32 n)

    behind : drop 4 chunk ≡ body f ++ lost
    behind =
        ap (drop 4) split ∙ drop-append_seam 4 (put_uint32 n) (body f ++ lost) (length-put_uint32 n)

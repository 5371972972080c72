-- ===== src/Communication/Encodings.antt =====
-- What ReadFromReader accepts: the encodings of frames, and nothing else.
pub mod Bodies
use lachain_communication_hu.Base.{
  length-take_le, take-append-drop, ℕ, ◌^◌, ◌≤◌, ◌<◌, ◌≡◌, sym, ap, ◌∙◌, ◌↔◌, List, [], ◌++◌,
  append_assoc, arith, length, take, drop, All, Outcome, ok, nat_eq, text_keys,
}
use lachain_communication_hu.Binary.{IsByte, put_word, put_uint32}
use lachain_communication_hu.Communication.Frame.{
  MessageFrame, ReadError, IsFrame, encode, parse_body,
}
use lachain_communication_hu.Communication.Reader.{Reader, contents, read_from_reader}
use lachain_communication_hu.Communication.Reading.{NonEmpty}
use lachain_communication_hu.Communication.RoundTrip.{read_from_reader-encode}
use lachain_communication_hu.Communication.Contents.{
  announced, announced_body, parse_contents, read_from_reader_lem,
}
use lachain_communication_hu.Communication.Encodings.Bodies.{
  All-split, word-lt, put_word-sized, parse_body-Behind,
}

held_of_ok :
    (xs : List ℕ) (f : MessageFrame)
    → parse_contents xs ≡ ok f
    → (4 ≤ length xs)
      × (announced xs ≤ length (drop 4 xs))
      × (parse_body (announced_body xs) ≡ ok f)
held_of_ok xs f e = ground arith

-- The bytes behind a frame's length, and those behind the frame.
accepted_bytes :
    (xs : List ℕ) (f : MessageFrame)
    → All IsByte xs
    → parse_contents xs ≡ ok f
    → IsFrame f × ((rest : List ℕ) × (xs ≡ encode f ++ rest))
unfolding put_uint32
accepted_bytes xs f bytes e =
    let (four, held, taken) = held_of_ok xs f e in
    let whole : take 4 xs ++ drop 4 xs ≡ xs = take-append-drop 4 xs in
    let (front, back) = All-split (take 4 xs) (drop 4 xs) (rw whole bytes) in
    let n = announced xs in
    let cut : take n (drop 4 xs) ++ drop n (drop 4 xs) ≡ drop 4 xs =
      take-append-drop n (drop 4 xs) in
    let (inner, outer) = All-split (take n (drop 4 xs)) (drop n (drop 4 xs)) (rw cut back) in
    let size : length (announced_body xs) ≡ n = length-take_le n (drop 4 xs) held in
    let four_there : length (take 4 xs) ≡ 4 = length-take_le 4 xs four in
    let small : n < 2 ^ 32 =
      omega (arith, word-lt (take 4 xs) front, ap (λ (m : ℕ). 256 ^ m) four_there) in
    let b = parse_body-Behind (announced_body xs) f inner (omega (arith, size)) taken in
    let written : encode f ≡ take 4 xs ++ announced_body xs =
      b.encoded
      ∙ ap (λ (m : ℕ). put_word 4 m ++ announced_body xs) size
      ∙ ap (λ (l : List ℕ). l ++ announced_body xs)
          (put_word-sized 4 (take 4 xs) four_there front) in
    (
      b.well_formed,
      (
        drop n (drop 4 xs),
        sym whole
            ∙ ap (◌++◌ (take 4 xs)) (sym cut)
            ∙ sym (append_assoc (take 4 xs) (announced_body xs) (drop n (drop 4 xs)))
            ∙ ap (λ (l : List ℕ). l ++ drop n (drop 4 xs)) (sym written),
      ),
    )

-- On a stream of bytes in nonempty chunks, ReadFromReader returns a frame exactly if the frame is
-- well-formed and the bytes begin with its encoding.
pub read_from_reader-ok :
    (r : Reader) (f : MessageFrame)
    → All NonEmpty r.stream
    → All IsByte (contents r)
    → ((read_from_reader r).0 ≡ ok f)
      ↔ (IsFrame f × ((rest : List ℕ) × (contents r ≡ encode f ++ rest)))
read_from_reader-ok r f ne bytes = (
  λ e. accepted_bytes (contents r) f bytes (sym (read_from_reader_lem r ne) ∙ e),
  λ h.
      let (later, got, left) = read_from_reader-encode f r.buffered r.stream h.1.0 h.0 h.1.1 ne in
      ap (λ (x : Outcome ReadError MessageFrame × Reader). x.0) got,
)

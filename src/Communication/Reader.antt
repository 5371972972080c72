-- ===== src/Communication/Reader.antt =====
-- A network stream, bufio.Reader on it, io.ReadFull, and ReadFromReader and ReadOnce on those.
-- A stream is the list of the chunks that its Read calls deliver, none of them more than is asked
-- for; after the last one it ends.
use lachain_communication_hu.Base.{
  ℕ, ◌-◌, List, [], ◌∷◌, ◌++◌, Outcome, ok, err, panic, length, take, drop, ltb, leb, if◌then◌else◌,
  concat,
}
use lachain_communication_hu.Communication.Frame.{
  MessageFrame, ReadError, eof, unexpected_eof, msg_integrity, extract_length, parse_body,
}

abbrev pub Stream : Type 0
Stream = List (List ℕ)

-- bufio's default buffer size.
abbrev pub buffer_size : ℕ
buffer_size = 4096

pub record Reader : Type 0 where
  pub buffered : List ℕ
  pub stream : Stream

-- What can still be read, wherever the chunks are cut.
abbrev pub contents : Reader → List ℕ
contents r = r.buffered ++ concat r.stream

abbrev pub new_reader : Stream → Reader
new_reader s = record { buffered = []; stream = s }

abbrev pub unread : List ℕ → Stream → Stream
unread [] s = s
unread (b ∷ bs) s = (b ∷ bs) ∷ s

abbrev pub end_error : List ℕ → ReadError
end_error [] = eof
end_error (b ∷ bs) = unexpected_eof

-- The loop of io.ReadFull while bufio's buffer is empty: `got` has been read, `need` is missing.
-- A Read of at least the buffer's size goes to the stream directly; any other fills the buffer first.
unfoldable pub read_more : List ℕ → ℕ → Stream → Outcome ReadError (List ℕ) × Reader
read_more got need [] = (err (end_error got), new_reader [])
read_more got need (c ∷ s) =
    let more = read_more (got ++ c) (need - length c) s in
    if ltb (length c) need
    then more
    else if leb buffer_size need
    then (ok (got ++ take need c), new_reader (unread (drop need c) s))
    else (
      ok (got ++ take need c),
      record { buffered = drop need (take buffer_size c); stream = unread (drop buffer_size c) s },
    )

-- io.ReadFull(reader, make([]byte, n))
unfoldable pub read_full : ℕ → Reader → Outcome ReadError (List ℕ) × Reader
read_full n r =
    if leb n (length r.buffered)
    then (ok (take n r.buffered), record r { buffered = drop n r.buffered })
    else read_more r.buffered (n - length r.buffered) r.stream

-- The rest of ReadFromReader after the length has been read.
abbrev pub read_body : Outcome ReadError (List ℕ) × Reader → Outcome ReadError MessageFrame × Reader
read_body (ok result, r) = (parse_body result, r)
read_body (err e, r) = (err e, r)
read_body (panic, r) = (panic, r)

abbrev pub read_sized : Outcome ReadError ℕ → Reader → Outcome ReadError MessageFrame × Reader
read_sized (ok bytes_left) r =
    if ltb bytes_left 4 then (err msg_integrity, r) else read_body (read_full bytes_left r)
read_sized (err e) r = (err e, r)
read_sized panic r = (panic, r)

abbrev pub read_prefixed :
    Outcome ReadError (List ℕ) × Reader → Outcome ReadError MessageFrame × Reader
read_prefixed (ok msg, r) = read_sized (extract_length msg) r
read_prefixed (err e, r) = (err e, r)
read_prefixed (panic, r) = (panic, r)

unfoldable pub read_from_reader : Reader → Outcome ReadError MessageFrame × Reader
read_from_reader r = read_prefixed (read_full 4 r)

-- ReadOnce makes a reader of its own, so what that reader has buffered is gone with it: the second
-- component is what a later call still finds on the stream.
unfoldable pub read_once : Stream → Outcome ReadError MessageFrame × Stream
read_once s = let (result, r) = read_from_reader (new_reader s) in (result, r.stream)

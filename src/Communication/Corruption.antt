-- ===== src/Communication/Corruption.antt =====
-- A frame of which one byte was changed on the way.
mod Pieces
use Pieces.{InFirst, InSecond, located, All-split, refused, word-changed}
use native.Mathlib.Decide.{dec_lt}
use lachain_communication_hu.Base.{
  ℕ, ◌+◌, ◌%◌, ◌^◌, ◌≤◌, ◌<◌, ◌≡◌, refl, sym, ap, ◌∙◌, ◌≢◌, inl, inr, List, [], ◌∷◌, ◌++◌,
  append-nil, append_assoc, arith, length, All, length-append, Outcome, ok, err, nat_eq, text_keys,
}
use lachain_communication_hu.Binary.{
  IsByte, put_word, put_uint32, put_uint64, word, length-put_uint32, word-put_uint32, put_word-word,
  word-put_word, put_word-IsByte,
}
use lachain_communication_hu.Communication.Checksum.{checksum_ieee, checksum_ieee-lt}
use lachain_communication_hu.Communication.Checksum.Injective.{
  checksum_ieee-one_byte, append-IsByte,
}
use lachain_communication_hu.Communication.Frame.{
  MessageFrame, IsFrame, encode, checked_bytes, parse_body, ReadError, msg_integrity,
}
use lachain_communication_hu.Communication.Reader.{Reader, contents, read_from_reader}
use lachain_communication_hu.Communication.Reading.{NonEmpty}
use lachain_communication_hu.Communication.Outcomes.{
  stored_checksum, computed_checksum, Intact, parse_body_mismatch,
}
use lachain_communication_hu.Communication.RoundTrip.{
  body, length-body, encode-body, length-checked_bytes, Read, read_from_reader-Read,
  parse_body-body,
}

checked_bytes-IsByte : (f : MessageFrame) → IsFrame f → All IsByte (checked_bytes f)
unfolding checked_bytes put_uint64
checked_bytes-IsByte f v =
    append-IsByte (put_word 8 f.msg_id) f.payload (put_word-IsByte 8 f.msg_id) v.bytes

module _ (f : MessageFrame) (v : IsFrame f) where
  trailer : List ℕ
  trailer = put_uint32 (checksum_ieee (checked_bytes f))

  -- A body with a changed byte behind its kind is refused.
  body_refused :
      (before after : List ℕ) (x y : ℕ)
      → checked_bytes f ++ trailer ≡ before ++ x ∷ after
      → IsByte y
      → y ≢ x
      → parse_body ((f.kind % 256) ∷ (before ++ y ∷ after)) ≡ err msg_integrity
  unfolding trailer
  body_refused before after x y e hy ne =
      let crc = checksum_ieee (checked_bytes f) in
      let small : crc < 2 ^ 32 = checksum_ieee-lt (checked_bytes f) in
      elim (located (checked_bytes f) trailer before x after e) [
        | inl p ↦
            let (hb, hx, ha) =
              All-split before x p.behind (rw p.first at (checked_bytes-IsByte f v)) in
            rw (p.last, ← append_assoc before (y ∷ p.behind) trailer)
              (refused (f.kind % 256) (before ++ y ∷ p.behind) trailer (length-put_uint32 crc) (λ e.
                ne (
                  checksum_ieee-one_byte before p.behind y x hb ha hy hx
                    (sym e ∙ word-put_uint32 crc small ∙ ap checksum_ieee p.first))))
        | inr p ↦
            rw (p.first, append_assoc (checked_bytes f) p.before (y ∷ after))
              (refused (f.kind % 256) (checked_bytes f) (p.before ++ y ∷ after)
                (omega (
                  arith,
                  length-put_uint32 crc,
                  ap (λ (l : List ℕ). length l) p.last,
                  length-append p.before (x ∷ after),
                  length-append p.before (y ∷ after),
                ))
                (word-changed crc p.before after x y p.last hy ne small))
      ]

  header : List ℕ
  header = put_uint32 (length (body f)) ++ (f.kind % 256) ∷ []

  length-header : length header ≡ 5
  unfolding header
  length-header = omega (
    arith,
    length-append (put_uint32 (length (body f))) ((f.kind % 256) ∷ []),
    length-put_uint32 (length (body f)),
  )

  body-trailer : body f ≡ (f.kind % 256) ∷ (checked_bytes f ++ trailer)
  unfolding body trailer
  body-trailer = refl

  encode-header : encode f ≡ header ++ (checked_bytes f ++ trailer)
  unfolding header trailer body
  encode-header =
      encode-body f v
      ∙ sym (
          append_assoc (put_uint32 (length (body f))) ((f.kind % 256) ∷ [])
            (checked_bytes f ++ put_uint32 (checksum_ieee (checked_bytes f))))

-- A reader that has a body behind its length before it, and anything after.
read-body :
    (r : Reader) (n : ℕ) (whole rest : List ℕ)
    → All NonEmpty r.stream
    → length whole ≡ n
    → 4 ≤ n
    → n < 2 ^ 32
    → contents r ≡ put_uint32 n ++ (whole ++ rest)
    → (read_from_reader r).0 ≡ parse_body whole
read-body r n whole rest ne size lo hi e =
    let t = read_from_reader-Read n whole r.buffered r.stream [] rest size lo hi e ne in
    ap (λ (p : Outcome ReadError MessageFrame × Reader). p.0) (rw (append-nil r.stream) at t.result)

-- The header, with the length and the kind, and what follows.
regroup :
    (p4 : List ℕ) (k : ℕ) (before : List ℕ) (y : ℕ) (after rest : List ℕ)
    → ((p4 ++ k ∷ []) ++ before) ++ y ∷ (after ++ rest)
      ≡ p4 ++ ((k ∷ (before ++ y ∷ after)) ++ rest)
regroup p4 k before y after rest = simp append_assoc

-- A reader that has the bytes of a well-formed frame before it, of which one byte behind the kind
-- was changed, in the id, the data or the checksum, refuses what it reads with MsgIntegrityError.
pub read_from_reader-corrupted :
    (f : MessageFrame) (r : Reader) (before after rest : List ℕ) (x y : ℕ)
    → IsFrame f
    → All NonEmpty r.stream
    → encode f ≡ before ++ x ∷ after
    → 5 ≤ length before
    → IsByte y
    → y ≢ x
    → contents r ≡ before ++ y ∷ (after ++ rest)
    → (read_from_reader r).0 ≡ err msg_integrity
unfolding header
read_from_reader-corrupted f r before after rest x y v ne e far hy other there =
    elim (located (header f v) (checked_bytes f ++ trailer f v) before x after
      (sym (encode-header f v) ∙ e)) [
        | inl p ↦ absurd (
            omega (
              arith,
              length-header f v,
              ap (λ (l : List ℕ). length l) p.first,
              length-append before (x ∷ p.behind),
            ))
        | inr p ↦
            let same : length (p.before ++ y ∷ after) + 1 ≡ length (body f) = omega (
              arith,
              ap (λ (l : List ℕ). length l) (body-trailer f v),
              ap (λ (l : List ℕ). length l) p.last,
              length-append p.before (x ∷ after),
              length-append p.before (y ∷ after),
            ) in
            read-body r (length (body f)) ((f.kind % 256) ∷ (p.before ++ y ∷ after)) rest ne
              (omega (arith, same)) (omega (arith, length-body f))
              (omega (arith, length-body f, v.fits))
              (there
                ∙ ap (λ (l : List ℕ). l ++ y ∷ (after ++ rest)) p.first
                ∙ regroup (put_uint32 (length (body f))) (f.kind % 256) p.before y after rest)
            ∙ body_refused f v p.before after x y p.last hy other
      ]

length-zero : (l : List ℕ) → length l ≡ 0 → l ≡ []
length-zero [] e = refl
length-zero (x ∷ l) e = absurd (omega arith)

of_kind : (f : MessageFrame) (y : ℕ) → IsFrame f → IsByte y → IsFrame (record f { kind = y })
of_kind f y v hy = record { kind_byte = hy; id_word = v.id_word; bytes = v.bytes; fits = v.fits }

kind_changed :
    (f : MessageFrame) (before : List ℕ) (x y : ℕ) (after : List ℕ)
    → length before ≡ 0
    → body f ≡ before ++ x ∷ after
    → IsByte y
    → y ∷ after ≡ body (record f { kind = y })
unfolding body checked_bytes
kind_changed f [] x y after e same hy =
    let tail : checked_bytes f ++ put_uint32 (checksum_ieee (checked_bytes f)) ≡ after = cc in
    let byte : y % 256 ≡ y = omega arith in rw (← tail, byte)
kind_changed f (b ∷ before) x y after e same hy = absurd (omega arith)

-- The checksum does not cover the kind: with that byte changed, the frame is read as one of the
-- other kind, with the same id and data.
pub read_from_reader-other_kind :
    (f : MessageFrame) (r : Reader) (before after rest : List ℕ) (x y : ℕ)
    → IsFrame f
    → All NonEmpty r.stream
    → encode f ≡ before ++ x ∷ after
    → length before ≡ 4
    → IsByte y
    → contents r ≡ before ++ y ∷ (after ++ rest)
    → (read_from_reader r).0 ≡ ok (record f { kind = y })
read_from_reader-other_kind f r before after rest x y v ne e at_kind hy there =
    elim (located (put_uint32 (length (body f))) (body f) before x after
      (sym (encode-body f v) ∙ e)) [
        | inl p ↦ absurd (
            omega (
              arith,
              length-put_uint32 (length (body f)),
              ap (λ (l : List ℕ). length l) p.first,
              length-append before (x ∷ p.behind),
            ))
        | inr p ↦
            let none_before : length p.before ≡ 0 = omega (
              arith,
              length-put_uint32 (length (body f)),
              ap (λ (l : List ℕ). length l) p.first,
              length-append (put_uint32 (length (body f))) p.before,
            ) in
            let whole : y ∷ after ≡ body (record f { kind = y }) =
              kind_changed f p.before x y after none_before p.last hy in
            read-body r (length (body f)) (y ∷ after) rest ne
              (omega (
                arith,
                none_before,
                ap (λ (l : List ℕ). length l) p.last,
                length-append p.before (x ∷ after),
              ))
              (omega (arith, length-body f)) (omega (arith, length-body f, v.fits))
              (there
                ∙ ap (λ (l : List ℕ). l ++ y ∷ (after ++ rest)) p.first
                ∙ ap (λ (l : List ℕ). (put_uint32 (length (body f)) ++ l) ++ y ∷ (after ++ rest))
                    (length-zero p.before none_before)
                ∙ ap (λ (l : List ℕ). l ++ y ∷ (after ++ rest))
                    (append-nil (put_uint32 (length (body f)))))
            ∙ ap parse_body whole
            ∙ parse_body-body (record f { kind = y }) (of_kind f y v hy)
      ]

-- ===== src/Communication/Outcomes.antt =====
-- When taking a frame apart succeeds, fails or panics.
use native.Mathlib.Decide.{dec_lt}
use lachain_communication_hu.Base.{
  ℕ, ◌-◌, ◌≤◌, ◌<◌, ◌≡◌, List, ok, err, panic, length, take, drop, arith, slice_inside,
  slice_reversed, slice_beyond, ◌==◌, ◌>>◌, guard, ne→==, ==_self, ◌∙◌,
}
use lachain_communication_hu.Binary.{word}
use lachain_communication_hu.Communication.Checksum.{checksum_ieee}
use lachain_communication_hu.Communication.Frame.{
  MessageFrame, ReadError, msg_integrity, parse_body, parse_fields, head_or,
}

-- The checksum that a body ends in, and the one computed from it.
abbrev pub stored_checksum : List ℕ → ℕ
stored_checksum b = word (take (length b - (length b - 4)) (drop (length b - 4) b))

abbrev pub computed_checksum : List ℕ → ℕ
computed_checksum b = checksum_ieee (take (length b - 4 - 1) (drop 1 b))

-- The frame that a body of thirteen bytes or more stands for.
abbrev pub parsed : List ℕ → MessageFrame
parsed b = record {
  kind = head_or 0 (take 1 b);
  msg_id = word (take 8 (drop 1 b));
  payload = take (length b - 4 - 9) (drop 9 b);
}

-- A body that ends in the checksum of what stands before.
abbrev pub Intact : List ℕ → Type 0
Intact b = stored_checksum b ≡ computed_checksum b

module _ (b : List ℕ) where
  pub parse_body_tiny : length b < 5 → parse_body b ≡ panic
  unfolding parse_body
  parse_body_tiny hi = rw (
    slice_inside b (length b - 4) (length b) (omega arith) (omega arith),
    slice_reversed b 1 (length b - 4) (omega arith),
  )

  parse_body_guarded :
      5 ≤ length b
      → parse_body b
        ≡ (guard (stored_checksum b == computed_checksum b) msg_integrity >> parse_fields b)
  unfolding parse_body
  parse_body_guarded lo = rw (
    slice_inside {E = ReadError} b (length b - 4) (length b) (omega arith) (omega arith),
    slice_inside {E = ReadError} b 1 (length b - 4) (omega arith) (omega arith),
  )

  pub parse_body_mismatch : 5 ≤ length b → ¬ Intact b → parse_body b ≡ err msg_integrity
  parse_body_mismatch lo ne = rw (parse_body_guarded lo, ne→== _ _ ne)

  pub parse_body-fields : 5 ≤ length b → Intact b → parse_body b ≡ parse_fields b
  parse_body-fields lo e = rw (parse_body_guarded lo, e, ==_self (computed_checksum b))

  pub parse_fields_long : 13 ≤ length b → parse_fields b ≡ ok (parsed b)
  unfolding parse_fields
  parse_fields_long lo = rw (
    slice_inside {E = ReadError} b 0 1 (omega arith) (omega arith),
    slice_inside {E = ReadError} b 1 9 (omega arith) (omega arith),
    slice_inside {E = ReadError} b 9 (length b - 4) (omega arith) (omega arith),
  )

  pub parse_fields_short : 5 ≤ length b → length b < 13 → parse_fields b ≡ panic
  unfolding parse_fields
  parse_fields_short lo hi =
      rw (slice_inside {E = ReadError} b 0 1 (omega arith) (omega arith))
        (elim (dec_lt (length b) 9) [
          | yes cut ↦ rw (slice_beyond {E = ReadError} b 1 9 cut)
          | no whole ↦ rw (
            slice_inside {E = ReadError} b 1 9 (omega arith) (omega arith),
            slice_reversed {E = ReadError} b 9 (length b - 4) (omega arith),
          )
        ])

  -- A body of five bytes or more that is not intact is refused. One that is intact gives a frame from
  -- thirteen bytes on, and a panic below; and below five bytes there is always a panic.
  pub parse_body_lem :
      (length b < 5 → parse_body b ≡ panic)
      × (5 ≤ length b → ¬ Intact b → parse_body b ≡ err msg_integrity)
      × (5 ≤ length b → length b < 13 → Intact b → parse_body b ≡ panic)
      × (13 ≤ length b → Intact b → parse_body b ≡ ok (parsed b))
  parse_body_lem = (
    parse_body_tiny,
    parse_body_mismatch,
    λ lo hi e. parse_body-fields lo e ∙ parse_fields_short lo hi,
    λ lo e. parse_body-fields (omega arith) e ∙ parse_fields_long lo,
  )

-- ===== src/Hub/Fetching.antt =====
-- What GetMessages hands over, and what it leaves.
use native.Mathlib.Decide.{dec_lt}
use lachain_communication_hu.Base.{
  ℕ, ◌+◌, ◌%◌, ◌^◌, ◌≤◌, ◌<◌, ◌≡◌, refl, ap, ◌∙◌, ◌≢◌, some, List, [], ◌∷◌, ◌++◌, arith, length,
  take, All, length-append, nat_eq, text_keys, take_all, le→ltb, lt→ltb, ne→==,
}
use lachain_communication_hu.Binary.{put_uint32, length-put_uint32}
use lachain_communication_hu.Hub.{Fifo, Fetch, copied, get_loop, get_messages}

-- A message in the buffer: its length, then the message.
abbrev pub framed : List ℕ → List ℕ
framed m = put_uint32 (length m) ++ m

-- Messages that stand one after the other from an offset on.
abbrev pub laid_out : ℕ → List (List ℕ) → List (ℕ × List ℕ)
laid_out ptr [] = []
laid_out ptr (m ∷ ms) = (ptr, framed m) ∷ laid_out (ptr + length m + 4) ms

abbrev pub total_size : List (List ℕ) → ℕ
total_size [] = 0
total_size (m ∷ ms) = length m + 4 + total_size ms

-- Nothing is left, or its first message does not fit behind `end`.
abbrev pub Full : ℕ → ℕ → List (List ℕ) → Type 0
Full max_length end [] = Unit {0}
Full max_length end (m ∷ ms) = max_length < end + length m + 4

abbrev pub Small : List ℕ → Type 0
Small m = length m + 4 < 2 ^ 31

module _ {Q : Type 0} (fifo : Fifo Q) where
  -- The messages are those that were taken, then those that are left.
  pub record Got (max_length ptr c : ℕ) (ms : List (List ℕ)) (r : Fetch Q) : Type 0 where
    pub taken : List (List ℕ)
    pub left : List (List ℕ)
    pub split : ms ≡ taken ++ left
    pub number : r.count ≡ some (c + length taken)
    pub copies : r.copies ≡ laid_out ptr taken
    pub fits : ptr + total_size taken ≤ max_length
    pub queue : fifo.elements r.queue ≡ left
    pub full : Full max_length (ptr + total_size taken) left

  -- The copy of a message that is not too long.
  copy-framed :
      (m : List ℕ)
      → Small m
      → take ((length m % 2 ^ 32 + 4) % 2 ^ 32) (put_uint32 (length m % 2 ^ 32) ++ m) ≡ framed m
  copy-framed m small =
      let e : length m % 2 ^ 32 ≡ length m = omega arith in
      rw e (
        take_all _ _
          (omega (arith, length-append (put_uint32 (length m)) m, length-put_uint32 (length m))))

  none_left :
      (max_length ptr c : ℕ) (m : List ℕ) (ms : List (List ℕ)) (q : Q)
      → ptr ≤ max_length
      → max_length < ptr + length m + 4
      → fifo.elements q ≡ m ∷ ms
      → Got max_length ptr c (m ∷ ms) (record { count = some c; copies = []; queue = q })
  none_left max_length ptr c m ms q low high e = record {
    taken = [];
    left = m ∷ ms;
    split = refl;
    number = ap some (omega arith);
    copies = refl;
    fits = omega arith;
    queue = e;
    full = omega arith;
  }

  one_taken :
      (max_length ptr c : ℕ) (m : List ℕ) (ms : List (List ℕ)) (r : Fetch Q)
      → Got max_length (ptr + length m + 4) (c + 1) ms r
      → Got max_length ptr c (m ∷ ms) (copied (ptr, framed m) r)
  one_taken max_length ptr c m ms r g =
      let end : ptr + length m + 4 + total_size g.taken
          ≡ ptr + (length m + 4 + total_size g.taken) =
        omega arith in
      record {
        taken = m ∷ g.taken;
        left = g.left;
        split = ap (◌∷◌ m) g.split;
        number = g.number ∙ ap some (omega arith);
        copies = ap (◌∷◌ (ptr, framed m)) g.copies;
        fits = omega (arith, g.fits);
        queue = g.queue;
        full = rw (← end) g.full;
      }

  get_loop-Got :
      (max_length ptr c : ℕ) (ms : List (List ℕ)) (q : Q)
      → ptr ≤ max_length
      → max_length < 2 ^ 31
      → All Small ms
      → fifo.elements q ≡ ms
      → Got max_length ptr c ms (get_loop fifo (length ms) max_length ptr c q)
  unfolding get_loop
  get_loop-Got max_length ptr c [] q low most small e = record {
    taken = [];
    left = [];
    split = refl;
    number = ap some (omega arith);
    copies = refl;
    fits = omega arith;
    queue = e;
    full = tt;
  }
  get_loop-Got max_length ptr c (m ∷ ms) q low most (sm, small) e =
      let (q', removed, rest) = fifo.remove_first q m ms e in
      let end : (ptr + length m % 2 ^ 32 + 4) % 2 ^ 32 ≡ ptr + length m + 4 = omega arith in
      elim (dec_lt max_length (ptr + length m + 4)) [
        | yes over ↦
            rw (fifo.get_first q m ms e, end, lt→ltb max_length (ptr + length m + 4) over)
              (none_left max_length ptr c m ms q low over e)
        | no room ↦
            let g =
              get_loop-Got max_length (ptr + length m + 4) (c + 1) ms q' (omega arith) most small
                rest in
            rw
              (
                fifo.get_first q m ms e,
                end,
                le→ltb max_length (ptr + length m + 4) (omega arith),
                removed,
                copy-framed m sm,
                end,
              )
              (one_taken max_length ptr c m ms _ g)
      ]

  -- If messages are waiting, all shorter than 2^31 - 4 bytes, GetMessages copies into the buffer, one
  -- behind the other from its start and each behind its length, as many of the oldest as fit:
  -- nothing is written behind the buffer's end, the result is their number, and the queue holds the
  -- others in their order, the first of which does not fit any more.
  pub get_messages-Got :
      (max_length : ℕ) (q : Q)
      → max_length < 2 ^ 31
      → fifo.elements q ≢ []
      → All Small (fifo.elements q)
      → Got max_length 0 0 (fifo.elements q) (get_messages fifo max_length q)
  unfolding get_messages
  get_messages-Got max_length q most waiting small =
      let some_there : length (fifo.elements q) ≢ 0 =
        λ z. waiting (length-zero (fifo.elements q) z) in
      rw (fifo.get_len-elements q, ne→== (length (fifo.elements q)) 0 some_there)
        (get_loop-Got max_length 0 0 (fifo.elements q) q (omega arith) most small refl)
    where
      length-zero : (xs : List (List ℕ)) → length xs ≡ 0 → xs ≡ []
      length-zero [] z = refl
      length-zero (x ∷ xs) z = absurd (omega arith)

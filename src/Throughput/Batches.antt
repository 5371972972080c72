-- ===== src/Throughput/Batches.antt =====
-- The reports of a calculator: the measurements in consecutive batches.
use lachain_communication_hu.Base.{
  ne→==, ℕ, ◌+◌, ◌-◌, ◌^◌, ◌<◌, ◌≡◌, refl, sym, ap, ◌∙◌, inl, inr, true, List, [], ◌∷◌, ◌++◌,
  append-nil, append_assoc, arith, length, concat, length-append, ltb, Bool-cases, nat_eq,
  text_keys,
}
use lachain_communication_hu.Throughput.{
  pos, int32_succ, Numbers, Calculator, Report, new_calculator, reset, add_measurement,
}

int32_succ-pos : (n : ℕ) → n + 1 < 2 ^ 31 → int32_succ (pos n) ≡ pos (n + 1)
unfolding int32_succ
int32_succ-pos n small = rw (ne→== (n + 1) (2 ^ 31) (omega arith)) refl

module _ {M : Type 0} (numbers : Numbers M) where
  abbrev pub sum_from : M → List M → M
  sum_from a [] = a
  sum_from a (m ∷ ms) = sum_from (numbers.plus a m) ms

  -- The sum of a batch, from its first measurement to its last, and its number.
  abbrev pub batch_sum : List M → M
  batch_sum ms = sum_from numbers.nought ms

  sum_from-append :
      (a : M) (ms : List M) (m : M) → sum_from a (ms ++ m ∷ []) ≡ numbers.plus (sum_from a ms) m
  sum_from-append a [] m = refl
  sum_from-append a (x ∷ ms) m = sum_from-append (numbers.plus a x) ms m

  -- Measurements with their times, one after the other.
  unfoldable pub add_all : List (ℕ × M) → Calculator M → List (Report M) × Calculator M
  add_all [] calc = ([], calc)
  add_all ((now, m) ∷ rest) calc =
      let (made, calc') = add_measurement numbers now m calc in
      let (later, last) = add_all rest calc' in (made ++ later, last)

  -- A report is that of a batch, and longer than the threshold.
  pub record IsReport (threshold : ℕ) (batch : List M) (r : Report M) : Type 0 where
    pub total : r.sum ≡ batch_sum batch
    pub number : r.measurements ≡ pos (length batch)
    pub long : threshold < r.duration

  abbrev pub AreReports : ℕ → List (List M) → List (Report M) → Type 0
  AreReports threshold [] [] = Unit {0}
  AreReports threshold [] (r ∷ rs) = ⊥
  AreReports threshold (b ∷ bs) [] = ⊥
  AreReports threshold (b ∷ bs) (r ∷ rs) = IsReport threshold b r × AreReports threshold bs rs

  -- The calculator holds a batch that is not reported yet.
  pub record Holds (threshold : ℕ) (batch : List M) (calc : Calculator M) : Type 0 where
    pub total : calc.sum ≡ batch_sum batch
    pub number : calc.measurements ≡ pos (length batch)
    pub limit : calc.threshold ≡ threshold

  pub record Batches (threshold : ℕ) (ms : List M) (r : List (Report M) × Calculator M)
      : Type 0 where
    pub reported : List (List M)
    pub unreported : List M
    pub split : ms ≡ concat reported ++ unreported
    pub reports : AreReports threshold reported r.0
    pub held : Holds threshold unreported r.1

  abbrev pub values : List (ℕ × M) → List M
  values [] = []
  values ((now, m) ∷ rest) = m ∷ values rest

  ltb_lt : (a b : ℕ) → ltb a b ≡ true → a < b
  ltb_lt a b h = ground arith

  add_all-Holds :
      (threshold : ℕ) (ts : List (ℕ × M)) (batch : List M) (calc : Calculator M)
      → length batch + length ts < 2 ^ 31
      → Holds threshold batch calc
      → Batches threshold (batch ++ values ts) (add_all ts calc)
  unfolding add_all add_measurement reset
  add_all-Holds threshold [] batch calc small h = record {
    reported = [];
    unreported = batch;
    split = append-nil batch;
    reports = tt;
    held = h;
  }
  add_all-Holds threshold ((now, m) ∷ ts) batch calc small h =
      let more : List M = batch ++ m ∷ [] in
      let size : length more ≡ length batch + 1 = length-append batch (m ∷ []) in
      let total : numbers.plus calc.sum m ≡ batch_sum more =
        ap (λ (s : M). numbers.plus s m) h.total ∙ sym (sum_from-append numbers.nought batch m) in
      let number : int32_succ calc.measurements ≡ pos (length more) =
        ap int32_succ h.number ∙ int32_succ-pos (length batch) (omega arith) ∙ ap pos (sym size) in
      elim (Bool-cases (ltb calc.threshold (now - calc.last_reset))) [
        | inl over ↦
            let b =
              add_all-Holds threshold ts []
                (record calc { sum = numbers.nought; measurements = pos 0; last_reset = now })
                (omega arith) (record { total = refl; number = refl; limit = h.limit }) in
            rw over (record {
              reported = more ∷ b.reported;
              unreported = b.unreported;
              split =
                  sym (append_assoc batch (m ∷ []) (values ts))
                  ∙ ap (◌++◌ more) b.split
                  ∙ sym (append_assoc more (concat b.reported) b.unreported);
              reports = (
                record {
                  total = total;
                  number = number;
                  long =
                      ltb_lt _ _
                        (ap (λ (k : ℕ). ltb k (now - calc.last_reset)) (sym h.limit) ∙ over);
                },
                b.reports,
              );
              held = b.held;
            })
        | inr under ↦
            rw (under, ← append_assoc batch (m ∷ []) (values ts))
              (add_all-Holds threshold ts more _ (omega arith)
                (record { total = total; number = number; limit = h.limit }))
      ]

  -- For fewer than 2^31 measurements of a new calculator: the reports are those of consecutive
  -- batches of the measurements, with their sums and numbers, each longer than the threshold, and
  -- the calculator holds the sum and the number of the measurements after the last report.
  pub add_all-Batches :
      (start threshold : ℕ) (ts : List (ℕ × M))
      → length ts < 2 ^ 31
      → Batches threshold (values ts) (add_all ts (new_calculator numbers start threshold))
  unfolding new_calculator
  add_all-Batches start threshold ts small =
      add_all-Holds threshold ts [] _ (omega arith)
        (record { total = refl; number = refl; limit = refl })

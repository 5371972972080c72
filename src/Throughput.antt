-- ===== src/Throughput.antt =====
-- throughput/calculator.go: a sum and a count of measurements between two reports. The measurements
-- are float64 numbers, known by their zero and their addition; times are nanoseconds.
pub mod Batches
mod Examples
use lachain_communication_hu.Base.{zero, suc, suc}
use lachain_communication_hu.Base.{◌==◌}
use lachain_communication_hu.Base.{
  ℕ, ◌+◌, ◌-◌, ◌%◌, ◌^◌, List, [], ◌∷◌, arith, if◌then◌else◌, ltb, nat_eq, text_keys,
}

pub record Numbers (M : Type 0) : Type 0 where
  pub nought : M
  pub plus : M → M → M

-- The integers, for the int32 count.
pub data ℤ : Type 0 where
  pos negsuc : ℕ → ℤ

-- `+= 1` on int32, which goes on at -2^31 after 2^31 - 1.
unfoldable pub int32_succ : ℤ → ℤ
int32_succ (pos n) = if n + 1 == 2 ^ 31 then negsuc (2 ^ 31 - 1) else pos (n + 1)
int32_succ (negsuc zero) = pos 0
int32_succ (negsuc (suc n)) = negsuc n

pub record Calculator (M : Type 0) : Type 0 where
  pub last_reset : ℕ
  pub threshold : ℕ
  pub measurements : ℤ
  pub sum : M

pub record Report (M : Type 0) : Type 0 where
  pub sum : M
  pub measurements : ℤ
  pub duration : ℕ

module _ {M : Type 0} (numbers : Numbers M) where
  -- throughput.New
  unfoldable pub new_calculator : ℕ → ℕ → Calculator M
  new_calculator now threshold = record {
    last_reset = now;
    threshold = threshold;
    measurements = pos 0;
    sum = numbers.nought;
  }

  -- Calculator.reset
  unfoldable pub reset : ℕ → Calculator M → Report M × Calculator M
  reset now calc = (
    record { sum = calc.sum; measurements = calc.measurements; duration = now - calc.last_reset },
    record calc { sum = numbers.nought; measurements = pos 0; last_reset = now },
  )

  -- AddMeasurement at a time, with the report that it makes.
  unfoldable pub add_measurement : ℕ → M → Calculator M → List (Report M) × Calculator M
  unfolding reset
  add_measurement now measurement calc =
      let added = record calc {
        sum = numbers.plus calc.sum measurement;
        measurements = int32_succ calc.measurements;
      } in
      if ltb added.threshold (now - added.last_reset)
      then (let (report, after) = reset now added in (report ∷ [], after))
      else ([], added)

-- ===== src/Throughput/Examples.antt =====
-- A calculator of natural numbers.
use lachain_communication_hu.Base.{ℕ, ◌+◌, List, [], ◌∷◌, arith, nat_eq, text_keys}
use lachain_communication_hu.Throughput.{Numbers, new_calculator}
use lachain_communication_hu.Throughput.Batches.{Batches, values, add_all, add_all-Batches}

abbrev naturals : Numbers ℕ
naturals = record { nought = 0; plus = λ a b. a + b }

abbrev measured_bytes : List (ℕ × ℕ)
measured_bytes = (3, 100) ∷ (12, 50) ∷ (14, 7) ∷ []

add_all-Batches_example :
    Batches naturals 10
      (values naturals measured_bytes)
      (add_all naturals measured_bytes (new_calculator naturals 0 10))
add_all-Batches_example = add_all-Batches naturals 0 10 measured_bytes (omega arith)

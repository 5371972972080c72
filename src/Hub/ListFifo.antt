-- ===== src/Hub/ListFifo.antt =====
-- A FIFO that is a list, for the tests.
use lachain_communication_hu.Base.{
  ℕ, zero, suc, ap, refl, Option, none, some, List, [], ◌∷◌, ◌++◌, length,
}
use lachain_communication_hu.Hub.{Fifo}

abbrev list_get : ℕ → List (List ℕ) → Option (List ℕ)
list_get i [] = none
list_get zero (m ∷ ms) = some m
list_get (suc i) (m ∷ ms) = list_get i ms

abbrev list_remove : ℕ → List (List ℕ) → Option (List (List ℕ))
list_remove i [] = none
list_remove zero (m ∷ ms) = some ms
list_remove (suc i) (m ∷ ms) = elim (list_remove i ms) [ none ↦ none | some rest ↦ some (m ∷ rest) ]

abbrev pub list_fifo : Fifo (List (List ℕ))
list_fifo = record {
  get_len = length;
  enqueue = λ m q. q ++ m ∷ [];
  get = list_get;
  remove = list_remove;
  elements = λ q. q;
  elements-enqueue = λ m q. refl;
  get_len-elements = λ q. refl;
  get_first = λ q m ms e. ap (list_get 0) e;
  remove_first = λ q m ms e. (ms, ap (list_remove 0) e, refl);
}

-- ===== src/Base/Slices.antt =====
-- Slice expressions, by where their bounds lie.
use Prim.Native.Nat.{ℕ, ◌+◌, ◌-◌, ◌≤◌, ◌<◌}
use mathlib.Core.Path.{◌≡◌, ap, ◌∙◌}
use mathlib.Core.List.{List, [], ◌++◌, append-nil}
use native.Mathlib.Omega.{arith}
use lachain_communication_hu.Base.Lists.{
  length, take, drop, length-append, drop-append_seam, take-append_seam,
}
use lachain_communication_hu.Base.Tests.{le→leb}
use lachain_communication_hu.Base.Outcomes.{ok, panic, slice}

module _ {ℓ κ} {E : Type ℓ} {A : Type κ} where
  pub slice_inside :
      (xs : List A) (lo hi : ℕ)
      → lo ≤ hi
      → hi ≤ length xs
      → slice {E = E} xs lo hi ≡ ok (take (hi - lo) (drop lo xs))
  unfolding slice
  slice_inside xs lo hi p q = rw (le→leb lo hi p, le→leb hi (length xs) q)

  pub slice_reversed : (xs : List A) (lo hi : ℕ) → hi < lo → slice {E = E} xs lo hi ≡ panic
  unfolding slice
  slice_reversed xs lo hi p = ground arith

  pub slice_beyond : (xs : List A) (lo hi : ℕ) → length xs < hi → slice {E = E} xs lo hi ≡ panic
  unfolding slice
  slice_beyond xs lo hi p = ground arith

  -- The middle part of three.
  pub slice_middle :
      (before mid after : List A) (lo hi : ℕ)
      → length before ≡ lo
      → lo + length mid ≡ hi
      → slice {E = E} (before ++ (mid ++ after)) lo hi ≡ ok mid
  slice_middle before mid after lo hi p q =
      slice_inside (before ++ (mid ++ after)) lo hi (omega arith)
        (omega (arith, length-append before (mid ++ after), length-append mid after))
      ∙ ap ok (
          rw (drop-append_seam lo before (mid ++ after) p)
            (take-append_seam (hi - lo) mid after (omega arith)))

  pub slice_end :
      (before mid : List A) (lo hi : ℕ)
      → length before ≡ lo
      → lo + length mid ≡ hi
      → slice {E = E} (before ++ mid) lo hi ≡ ok mid
  slice_end before mid lo hi p q = rw (append-nil mid) at (slice_middle before mid [] lo hi p q)

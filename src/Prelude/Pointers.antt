-- ===== src/Prelude/Pointers.antt =====
-- Pointers across the C boundary: null, or what they point at. Of an array, that is its elements
-- from there on.
use Prim.Native.Nat.{ℕ}
use mathlib.Core.Bool.{Bool, true, false}
use mathlib.Core.List.{List, []}
use tensorrt_rs.Prelude.Lists.{take}

pub data Pointer {ℓ} (A : Type ℓ) : Type ℓ where
  null : Pointer A
  at : A → Pointer A

module _ {ℓ} {A : Type ℓ} where
  abbrev pub is_null : Pointer A → Bool
  is_null null = true
  is_null (at a) = false

  -- `slice::from_raw_parts(p, n)`, of an array of `n` elements or more.
  abbrev pub from_raw_parts : Pointer (List A) → ℕ → List A
  from_raw_parts null n = []
  from_raw_parts (at xs) n = take n xs

  -- `values.as_ptr()`
  abbrev pub as_ptr : List A → Pointer (List A)
  as_ptr xs = at xs

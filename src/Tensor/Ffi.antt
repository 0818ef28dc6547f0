-- ===== src/Tensor/Ffi.antt =====
-- tensorrt/src/tensor.rs: shapes at the C boundary (`from_ffi`, `to_ffi`).
use tensorrt_rs.Prelude.{
  ◌-◌, ◌≡◌, ◌≤◌, List, ◌++◌, ℤ, pos, negsuc, Result, ok, err, ltb, if◌then◌else◌, take, length,
  replicate, arith, take-append,
}
use tensorrt_rs.Errors.{Error, invalid_dimension_count}
use tensorrt_rs.Tensor.Defs.{Dims, new_dims, max_dims}

-- `ffi::Dims`: a count and an array of `max_dims` entries.
pub record FfiDims : Type 0 where
  pub nb_dims : ℤ
  pub d : List ℤ

unfoldable pub from_ffi : FfiDims → Result Error Dims
from_ffi dims = elim dims.nb_dims [
  | pos len ↦
      if ltb max_dims len
      then err (invalid_dimension_count (pos len))
      else new_dims (take len dims.d)
  | negsuc n ↦ err (invalid_dimension_count (negsuc n))
]

unfoldable pub to_ffi : Dims → FfiDims
to_ffi s = record {
  nb_dims = pos (length s.values);
  d = s.values ++ replicate (max_dims - length s.values) (pos 0);
}

-- A shape of at most `max_dims` dimensions comes back from the C structure unchanged.
pub from_ffi-to_ffi : (s : Dims) → length s.values ≤ max_dims → from_ffi (to_ffi s) ≡ ok s
unfolding from_ffi to_ffi new_dims
from_ffi-to_ffi s h = rw (take-append s.values) (ground arith)

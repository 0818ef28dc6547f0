-- ===== src/Llm/Outputs/Offsets.antt =====
-- output.rs: where each sequence begins in an array of them all.
use tensorrt_rs.Prelude.{
  ℕ, ◌+◌, ℤ, pos, List, [], ◌∷◌, Option, some, none, Result, ok, err, ◌>>=◌, ◌>>◌, reject, try_map,
  for_each, get_elem?, ltb, ◌==◌, nat_eq, not, ◌&&◌, if◌then◌else◌, Bool, false,
}
use tensorrt_rs.Prelude.Pointers.{Pointer, null, is_null, from_raw_parts}
use tensorrt_rs.Llm.Errors.{
  Error, invalid_argument, length_overflow, offset_overflow, null_offsets, invalid_offsets,
  panicked,
}

-- `i64::try_from`, of a `usize`.
unfoldable pub i64_try_from : ℕ → Error → Result Error ℤ
i64_try_from n e = if ltb n 9223372036854775808 then ok (pos n) else err e

-- `expect`
abbrev pub expect : {E A : Type 0} → Result E A → Result Error A
expect (ok a) = ok a
expect (err e) = err panicked

abbrev pub last : List ℕ → Option ℕ
last [] = none
last (x ∷ []) = some x
last (x ∷ y ∷ ys) = last (y ∷ ys)

abbrev pub is_some_of : Option ℕ → ℕ → Bool
is_some_of none n = false
is_some_of (some m) n = m == n

-- `offsets.first() != Some(&0) || offsets.last() != Some(&data_count)`, the other way round.
unfoldable pub ends_match : List ℕ → ℕ → Bool
ends_match offsets data_count =
    is_some_of (get_elem? offsets 0) 0 && is_some_of (last offsets) data_count

unfoldable pub output_offsets : Pointer (List ℕ) → ℕ → ℕ → Result Error (List ℤ)
unfolding i64_try_from ends_match try_map
output_offsets offsets sequence_count data_count =
    if sequence_count == 0
    then (i64_try_from data_count (invalid_argument length_overflow) >>= λ n. ok (pos 0 ∷ n ∷ []))
    else do
      reject (is_null offsets) (invalid_argument null_offsets)
      let offsets = from_raw_parts offsets (sequence_count + 1)
      reject (not (ends_match offsets data_count)) (invalid_argument invalid_offsets)
      try_map (λ n. i64_try_from n (invalid_argument offset_overflow)) offsets

pub record OffsetTensorData : Type 0 where
  pub ptr : Pointer (List ℕ)
  pub sequence_count : ℕ
  pub data_count : ℕ

unfoldable pub new_offsets : Pointer (List ℕ) → ℕ → ℕ → Result Error OffsetTensorData
unfolding i64_try_from ends_match for_each
new_offsets offsets sequence_count data_count =
    if sequence_count == 0
    then (i64_try_from data_count (invalid_argument length_overflow) >>= λ n.
        ok (record { ptr = null; sequence_count = sequence_count; data_count = data_count }))
    else do
      reject (is_null offsets) (invalid_argument null_offsets)
      let read = from_raw_parts offsets (sequence_count + 1)
      reject (not (ends_match read data_count)) (invalid_argument invalid_offsets)
      for_each (λ n. i64_try_from n (invalid_argument offset_overflow) >>= λ _. ok tt) read
      ok (record { ptr = offsets; sequence_count = sequence_count; data_count = data_count })

unfoldable pub offsets_len : OffsetTensorData → ℕ
offsets_len d = if d.sequence_count == 0 then 2 else d.sequence_count + 1

unfoldable pub to_vec : OffsetTensorData → Result Error (List ℤ)
unfolding i64_try_from try_map
to_vec d =
    if d.sequence_count == 0
    then (expect (i64_try_from d.data_count panicked) >>= λ n. ok (pos 0 ∷ n ∷ []))
    else try_map (λ n. expect (i64_try_from n panicked))
        (from_raw_parts d.ptr (d.sequence_count + 1))

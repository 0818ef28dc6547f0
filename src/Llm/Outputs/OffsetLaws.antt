-- ===== src/Llm/Outputs/OffsetLaws.antt =====
-- The offsets of sequences: read at once (`output_offsets`) or checked now and read later
-- (`OffsetTensorData`), they are the same.
use tensorrt_rs.Prelude.{
  ℕ, zero, suc, ◌+◌, ◌≤◌, ◌<◌, ◌≡◌, refl, ap, sym, ◌∙◌, ◌⊎◌, inl, inr, Bool-cases, false, List, [],
  ◌∷◌, Option, some, none, Result, ok, err, ◌>>=◌, length, ltb, ◌==◌, nat_eq, ℕ_discrete, arith, ℤ,
  pos, try_map, for_each, take,
}
use tensorrt_rs.Prelude.Pointers.{Pointer, null, at}
use tensorrt_rs.Tensor.{usize_mod, checked_mul}
use tensorrt_rs.Tensor.SizeLaws.{length-take}
use tensorrt_rs.Llm.Errors.{Error, invalid_argument, offset_overflow, panicked}
use tensorrt_rs.Llm.Outputs.Values.{TensorData, int64, elem_count, elements, validate_tensor_len}
use tensorrt_rs.Llm.Outputs.ValueLaws.{product}
use tensorrt_rs.Llm.Outputs.Offsets.{
  i64_try_from, OffsetTensorData, new_offsets, output_offsets, to_vec, expect, ends_match,
  offsets_len,
}
use tensorrt_rs.Llm.Outputs.Lazy.{
  RawOutputGuard, new_deferred, from_offsets, into_tensor, materialize, cell, offsets,
}
use tensorrt_rs.Llm.Outputs.Decode.{offsets_in}
use tensorrt_rs.Llm.Outputs.LazyLaws.{Related, Holds, SameTensor, guarded}

-- The three walks over the offsets: each copied, each checked, and each read after the check.
abbrev Copied : List ℕ → Result Error (List ℤ)
Copied = try_map (λ n. i64_try_from n (invalid_argument offset_overflow))

abbrev Checked : List ℕ → Result Error (Unit {0})
Checked = for_each (λ n. i64_try_from n (invalid_argument offset_overflow) >>= λ _. ok tt)

abbrev ReadLater : List ℕ → Result Error (List ℤ)
ReadLater = try_map (λ n. expect (i64_try_from n panicked))

walks :
    (xs : List ℕ)
    → ((ys : List ℤ) × (Copied xs ≡ ok ys)
        × (Checked xs ≡ ok tt)
        × (ReadLater xs ≡ ok ys)
        × (length ys ≡ length xs))
      ⊎ ((e : Error) × (e' : Error) × (Copied xs ≡ err e) × (Checked xs ≡ err e'))
unfolding try_map for_each i64_try_from
walks [] = inl ([], refl, refl, refl, refl)
walks (x ∷ xs) = elim (Bool-cases (ltb x 9223372036854775808)) [
  | inr m ↦ inr (invalid_argument offset_overflow, invalid_argument offset_overflow, rw m, rw m)
  | inl m ↦ elim (walks xs) [
    | inl (ys, c, k, r, l) ↦ inl (pos x ∷ ys, rw (m, c), rw (m, k), rw (m, r), ap suc l)
    | inr (e, e', c, k) ↦ inr (e, e', rw (m, c), rw (m, k))
  ]
]

suc_not_zero : (n : ℕ) → (suc n == 0) ≡ false
suc_not_zero n = ground arith

-- One dimension that is the number of values.
one_dimension : (count : ℕ) → count < usize_mod → validate_tensor_len count (count ∷ []) ≡ ok tt
unfolding validate_tensor_len elements checked_mul
one_dimension count h = ground arith

module _ {Tensor E : Type 0} (from_vec : TensorData → List ℕ → Result E Tensor)
    (made : (values : TensorData) (shape : List ℕ)
      → elem_count values ≡ product shape
      → (t : Tensor) × (from_vec values shape ≡ ok t)) where
  read_as :
      (ys : List ℤ) (values : OffsetTensorData) (g : RawOutputGuard) (t : Tensor)
      → from_vec (int64 ys) (length ys ∷ []) ≡ ok t
      → length ys < usize_mod
      → to_vec values ≡ ok ys
      → offsets_len values ≡ length ys
      → Related
          (SameTensor from_vec made)
          (new_deferred (int64 ys) (length ys ∷ []))
          (ok (offsets values none g))
  unfolding new_deferred into_tensor materialize cell elem_count
  read_as ys values g t e fits read len =
      rw (one_dimension (length ys) fits) (t, rw e, rw (read, len, e))

  filled : (ys : List ℤ) → elem_count (int64 ys) ≡ product (length ys ∷ [])
  unfolding elem_count
  filled ys = omega arith

  read_later :
      (ys : List ℤ) (values : OffsetTensorData) (g : RawOutputGuard)
      → length ys < usize_mod
      → to_vec values ≡ ok ys
      → offsets_len values ≡ length ys
      → Related
          (SameTensor from_vec made)
          (new_deferred (int64 ys) (length ys ∷ []))
          (ok (offsets values none g))
  read_later ys values g fits read len =
      let (t, e) = made (int64 ys) (length ys ∷ []) (filled ys) in
      read_as ys values g t e fits read len

  no_sequences :
      (data_count : ℕ) (p : Pointer (List ℕ)) (g : RawOutputGuard)
      → Related
          (SameTensor from_vec made)
          (offsets_in p 0 data_count none)
          (offsets_in p 0 data_count (some g))
  unfolding offsets_in output_offsets new_offsets from_offsets to_vec i64_try_from offsets_len
      ℕ_discrete
  no_sequences data_count p g = elim (Bool-cases (ltb data_count 9223372036854775808)) [
    | inr m ↦ rw m tt
    | inl m ↦ rw m (
        read_later (pos 0 ∷ pos data_count ∷ [])
          (record { ptr = null; sequence_count = 0; data_count = data_count }) g (omega arith)
          (rw m) refl)
  ]

  sequences :
      (count data_count : ℕ) (xs : List ℕ) (g : RawOutputGuard)
      → suc count + 1 < usize_mod
      → suc count + 1 ≤ length xs
      → Related
          (SameTensor from_vec made)
          (offsets_in (at xs) (suc count) data_count none)
          (offsets_in (at xs) (suc count) data_count (some g))
  unfolding offsets_in output_offsets new_offsets from_offsets to_vec offsets_len ℕ_discrete
  sequences count data_count xs g fits holds =
      let read = take (suc count + 1) xs in
      elim (Bool-cases (ends_match read data_count)) [
        | inr m ↦ rw (suc_not_zero count, m) tt
        | inl m ↦ elim (walks read) [
          | inr (e, e', c, k) ↦ rw (suc_not_zero count, m, c, k) tt
          | inl (ys, c, k, r, l) ↦
              let total : length ys ≡ suc count + 1 = l ∙ length-take (suc count + 1) xs holds in
              rw (suc_not_zero count, m, c, k)
                (read_later ys
                  (record { ptr = at xs; sequence_count = suc count; data_count = data_count }) g
                  (omega arith) (rw (suc_not_zero count) r) (rw (suc_not_zero count) (sym total)))
        ]
      ]

  with_and_without :
      (p : Pointer (List ℕ)) (count data_count : ℕ)
      → count + 1 < usize_mod
      → Holds p (count + 1)
      → (g : RawOutputGuard)
      → Related
          (SameTensor from_vec made)
          (offsets_in p count data_count none)
          (offsets_in p count data_count (some g))
  unfolding offsets_in output_offsets new_offsets from_offsets ℕ_discrete
  with_and_without p zero data_count fits holds g = no_sequences data_count p g
  with_and_without null (suc count) data_count fits holds g = rw (suc_not_zero count) tt
  with_and_without (at xs) (suc count) data_count fits holds g =
      sequences count data_count xs g fits holds

  pub offsets_in-guards :
      (p : Pointer (List ℕ)) (count data_count : ℕ) (g g' : Option RawOutputGuard)
      → count + 1 < usize_mod
      → Holds p (count + 1)
      → Related
          (SameTensor from_vec made)
          (offsets_in p count data_count g)
          (offsets_in p count data_count g')
  offsets_in-guards p count data_count g g' fits holds =
      guarded from_vec made (offsets_in p count data_count) (record { owner = 0 })
        (with_and_without p count data_count fits holds) g g'

-- ===== src/Llm/Executor/Shapes.antt =====
-- `TensorShapeBuf`: an array of eight for the usual ranks and a vector for others hold the same.
use mathlib.Core.List.{append_assoc, append-nil}
use tensorrt_rs.Prelude.{
  ℕ, zero, suc, ◌+◌, ◌≤◌, ◌<◌, ◌≡◌, refl, ap, sym, ◌∙◌, subst, ℤ, pos, List, [], ◌∷◌, ◌++◌, Result,
  ok, err, ◌>>=◌, Result-cases, Bool-cases, inl, inr, try_map, length, take, replicate, leb, arith,
}
use tensorrt_rs.Llm.Errors.{Error}
use tensorrt_rs.Llm.Executor.Tensors.{
  inline, heap, set, dimension, fill_shape, new_shape, shape_as_slice, inline_tensor_rank,
}

length-set : {A : Type 0} (xs : List A) (i : ℕ) (v : A) → length (set xs i v) ≡ length xs
length-set [] i v = refl
length-set (x ∷ xs) zero v = refl
length-set (x ∷ xs) (suc i) v = ap suc (length-set xs i v)

-- The entries up to one that is written.
take-set :
    {A : Type 0} (xs : List A) (i : ℕ) (v : A)
    → i < length xs
    → take (suc i) (set xs i v) ≡ take i xs ++ (v ∷ [])
take-set [] i v h = elim h [ ]
take-set (x ∷ xs) zero v h = refl
take-set (x ∷ xs) (suc i) v h = ap (◌∷◌ x) (take-set xs i v (omega arith))

-- A dimension more, at either end of a walk that is made.
moved :
    (r : Result Error (List ℤ)) (before after : List ℤ) (z : ℤ)
    → after ≡ before ++ (z ∷ [])
    → (r >>= λ ds. ok (after ++ ds)) ≡ (r >>= (λ ys. ok (z ∷ ys)) >>= λ ds. ok (before ++ ds))
moved (ok ds) before after z h =
    ap (λ xs. ok (xs ++ ds)) h ∙ ap ok (append_assoc before (z ∷ []) ds)
moved (err e) before after z h = refl

-- The loop from an index on, over entries that are long enough: what stands before the index, and
-- then the dimensions.
fill_shape-try_map :
    (dims : List ℕ) (index : ℕ) (values : List ℤ)
    → index + length dims ≤ length values
    → (fill_shape index dims values >>= λ vs. ok (take (index + length dims) vs))
      ≡ (try_map dimension dims >>= λ ds. ok (take index values ++ ds))
unfolding fill_shape try_map
fill_shape-try_map [] index values h =
    let same : index + 0 ≡ index = omega arith in
    ap (λ k. ok (take k values)) same ∙ ap ok (sym (append-nil (take index values)))
fill_shape-try_map (d ∷ ds) index values h = elim (Result-cases (dimension d)) [
  | inr (e, r) ↦ rw r
  | inl (z, r) ↦
      let written = set values index z in
      let count : suc index + length ds ≡ index + suc (length ds) = omega arith in
      let step =
        fill_shape-try_map ds (suc index) written (omega (arith, length-set values index z)) in
      rw (r, ← count)
        (step
          ∙ moved (try_map dimension ds) (take index values) (take (suc index) written) z
              (take-set values index z (omega arith)))
]

sliced_inline :
    (r : Result Error (List ℤ)) (n : ℕ)
    → (r >>= (λ vs. ok (inline vs n)) >>= λ s. ok (shape_as_slice s)) ≡ (r >>= λ vs. ok (take n vs))
unfolding shape_as_slice
sliced_inline (ok vs) n = refl
sliced_inline (err e) n = refl

sliced_heap :
    (r : Result Error (List ℤ)) → (r >>= (λ vs. ok (heap vs)) >>= λ s. ok (shape_as_slice s)) ≡ r
unfolding shape_as_slice
sliced_heap (ok vs) = refl
sliced_heap (err e) = refl

returned : (r : Result Error (List ℤ)) → (r >>= λ ds. ok ds) ≡ r
returned (ok ds) = refl
returned (err e) = refl

-- A tensor's shape, in the array of eight or in the vector, holds its dimensions as signed numbers, and
-- is refused for one that does not fit exactly as a plain vector of them is.
pub shape_as_slice-new_shape :
    (dims : List ℕ) → (new_shape dims >>= λ s. ok (shape_as_slice s)) ≡ try_map dimension dims
unfolding new_shape
shape_as_slice-new_shape dims = elim (Bool-cases (leb (length dims) inline_tensor_rank)) [
  | inr m ↦ rw m (sliced_heap (try_map dimension dims))
  | inl m ↦
      let zeros = replicate inline_tensor_rank (pos 0) in
      let count : 0 + length dims ≡ length dims = omega arith in
      rw m (
        sliced_inline (fill_shape 0 dims zeros) (length dims)
        ∙ subst
            (λ k.
              (fill_shape 0 dims zeros >>= λ vs. ok (take k vs))
              ≡ (try_map dimension dims >>= λ ds. ok ds))
            count (fill_shape-try_map dims 0 zeros (ground arith))
        ∙ returned (try_map dimension dims))
]

-- ===== src/Llm/Outputs/Asked.antt =====
-- Asking an output for a tensor by its name (`get`, `output[name]`).
use tensorrt_rs.Prelude.{
  ℕ, ◌≡◌, refl, inl, inr, Bool-cases, List, [], ◌∷◌, some, none, Result, ok, String, try_map, ◌==◌,
  string_eq, arith,
}
use tensorrt_rs.Prelude.Maps.{lookup}
use tensorrt_rs.Llm.Outputs.Values.{TensorData}
use tensorrt_rs.Llm.Outputs.Lazy.{
  LazyTensor, deferred, raw, offsets, tensor, into_tensor, cell, fill,
}
use tensorrt_rs.Llm.Outputs.Decode.{
  TensorOutput, ExecutorOutput, into_pair, into_pairs, get_in, get,
}

module _ {Tensor E : Type 0} (from_vec : TensorData → List ℕ → Result E Tensor) where
  -- A cell is filled with what would be made of the values, and kept.
  tensor-into_tensor :
      (lazy : LazyTensor Tensor) {t : Tensor}
      → into_tensor from_vec lazy ≡ ok t
      → (kept : LazyTensor Tensor) × (tensor from_vec lazy ≡ ok (t, kept))
        × (into_tensor from_vec kept ≡ ok t)
  unfolding tensor into_tensor cell fill
  tensor-into_tensor (deferred v s none) {t = t} h = (deferred v s (some t), rw h, refl)
  tensor-into_tensor (deferred v s (some u)) h = (deferred v s (some u), ground arith, h)
  tensor-into_tensor (raw v s none g) {t = t} h = (raw v s (some t) g, rw h, refl)
  tensor-into_tensor (raw v s (some u) g) h = (raw v s (some u) g, ground arith, h)
  tensor-into_tensor (offsets v none g) {t = t} h = (offsets v (some t) g, rw h, refl)
  tensor-into_tensor (offsets v (some u) g) h = (offsets v (some u) g, ground arith, h)

  asked :
      (name : String) (outs : List (TensorOutput Tensor)) (ts : List (String × Tensor))
      → try_map (into_pair from_vec) outs ≡ ok ts
      → (kept : List (TensorOutput Tensor)) × (get_in from_vec name outs
          ≡ ok (lookup name ts, kept))
        × (try_map (into_pair from_vec) kept ≡ ok ts)
  unfolding try_map get_in lookup into_pair
  asked name [] [] h = ([], refl, refl)
  asked name [] (t ∷ ts) h = absurd (cc)
  asked name (out ∷ outs) [] h = ground arith
  asked name (out ∷ outs) ((n, t) ∷ ts) h =
      let made : into_tensor from_vec out.values ≡ ok t = ground arith in
      let same_name : out.name ≡ n = ground arith in
      let others : try_map (into_pair from_vec) outs ≡ ok ts = ground arith in
      let (lazy, asked_first, kept_first) = tensor-into_tensor out.values made in
      let (rest, found, kept) = asked name outs ts others in
      elim (Bool-cases (out.name == name)) [
        | inl m ↦ (
          record out { values = lazy } ∷ outs,
          rw (m, asked_first, same_name) (ground arith),
          rw (kept_first, others, same_name),
        )
        | inr m ↦ (out ∷ rest, ground (arith, found), ground (arith, kept))
      ]

  -- Where the tensors of an output can all be made, asking for a name gives the first tensor of that
  -- name, or none if there is none, and the tensors of the output are afterwards what they were.
  pub get-into_pairs :
      (out : ExecutorOutput Tensor) (name : String) (ts : List (String × Tensor))
      → into_pairs from_vec out ≡ ok ts
      → (kept : ExecutorOutput Tensor) × (get from_vec out name ≡ ok (lookup name ts, kept))
        × (into_pairs from_vec kept ≡ ok ts)
  unfolding get into_pairs
  get-into_pairs out name ts h =
      let (kept, found, same) = asked name out.tensors ts h in
      (record out { tensors = kept }, rw found, same)

-- ===== src/Candle/Disjoint.antt =====
-- What the checks against aliasing establish.
use tensorrt_rs.Prelude.{
  ℕ, String, ◌+◌, ◌≡◌, ◌≤◌, ◌<◌, List, [], ◌∷◌, Result, ok, >>=-eq-ok, >>-eq-ok, for_each, All,
  arith,
}
use tensorrt_rs.Errors.{Error}
use tensorrt_rs.Tensor.{DeviceInputTensor, DeviceOutputTensor, checked_add}
use tensorrt_rs.Candle.Aliases.{
  CudaMemoryRange, new_range, overlaps, check_input_alias, check_output_alias, check_inputs_apart,
  check_outputs_apart, validate_cuda_output_aliases,
}

-- No address is in both of two stretches of memory, given by their first address and their size.
abbrev pub Apart : (p m q n : ℕ) → Type 0
Apart p m q n = (a : ℕ) → p ≤ a → a < p + m → q ≤ a → a < q + n → ⊥

abbrev pub AllApart : List DeviceOutputTensor → Type 0
AllApart [] = Unit
AllApart (o ∷ os) = All (λ t. Apart o.ptr o.bytes t.ptr t.bytes) os × AllApart os

-- `r` is the range of a tensor at `p` of `m` bytes.
abbrev Covers : CudaMemoryRange → ℕ → ℕ → Type 0
Covers r p m = (r.start ≡ p) × (r.stop ≡ p + m)

new_range-Covers :
    (name : String) (p m : ℕ) {r : CudaMemoryRange} → new_range name p m ≡ ok r → Covers r p m
unfolding new_range checked_add
new_range-Covers name p m h = ground arith

module _ (o : DeviceOutputTensor) (r : CudaMemoryRange) (c : Covers r o.ptr o.bytes) where
  input-Apart :
      (t : DeviceInputTensor) → check_input_alias r t ≡ ok tt → Apart o.ptr o.bytes t.ptr t.bytes
  unfolding check_input_alias overlaps
  input-Apart t h a p m q n =
      let (s, made, apart) = >>=-eq-ok (new_range t.name t.ptr t.bytes) _ h in
      let (first, last) = new_range-Covers t.name t.ptr t.bytes made in ground arith

  output-Apart :
      (t : DeviceOutputTensor) → check_output_alias r t ≡ ok tt → Apart o.ptr o.bytes t.ptr t.bytes
  unfolding check_output_alias overlaps
  output-Apart t h a p m q n =
      let (s, made, apart) = >>=-eq-ok (new_range t.name t.ptr t.bytes) _ h in
      let (first, last) = new_range-Covers t.name t.ptr t.bytes made in ground arith

for_each-All :
    {A : Type 0} (f : A → Result Error (Unit {0})) (P : A → Type 0)
    → ((x : A) → f x ≡ ok tt → P x)
    → (xs : List A) → for_each f xs ≡ ok tt
    → All P xs
unfolding for_each
for_each-All f P each [] h = tt
for_each-All f P each (x ∷ xs) h =
    let (here, rest) = >>-eq-ok (f x) (for_each f xs) h in
    (each x here, for_each-All f P each xs rest)

inputs-Apart :
    (inputs : List DeviceInputTensor) (outputs : List DeviceOutputTensor)
    → check_inputs_apart inputs outputs ≡ ok tt
    → All (λ o. All (λ t. Apart o.ptr o.bytes t.ptr t.bytes) inputs) outputs
unfolding check_inputs_apart
inputs-Apart inputs [] h = tt
inputs-Apart inputs (o ∷ os) h =
    let (here, rest) = >>-eq-ok _ (check_inputs_apart inputs os) h in
    let (r, made, checked) =
      >>=-eq-ok (new_range o.name o.ptr o.bytes)
        (λ range. for_each (check_input_alias range) inputs) here in
    (
      for_each-All (check_input_alias r) _
          (input-Apart o r (new_range-Covers o.name o.ptr o.bytes made)) inputs checked,
      inputs-Apart inputs os rest,
    )

outputs-AllApart :
    (outputs : List DeviceOutputTensor) → check_outputs_apart outputs ≡ ok tt → AllApart outputs
unfolding check_outputs_apart
outputs-AllApart [] h = tt
outputs-AllApart (o ∷ os) h =
    let (here, rest) = >>-eq-ok _ (check_outputs_apart os) h in
    let (r, made, checked) =
      >>=-eq-ok (new_range o.name o.ptr o.bytes) (λ range. for_each (check_output_alias range) os)
        here in
    (
      for_each-All (check_output_alias r) _
          (output-Apart o r (new_range-Covers o.name o.ptr o.bytes made)) os checked,
      outputs-AllApart os rest,
    )

-- Outputs that pass the checks share no byte of memory with an input, nor with one another.
pub validate_cuda_output_aliases-AllApart :
    (inputs : List DeviceInputTensor) (outputs : List DeviceOutputTensor)
    → validate_cuda_output_aliases inputs outputs ≡ ok tt
    → All (λ o. All (λ t. Apart o.ptr o.bytes t.ptr t.bytes) inputs) outputs × AllApart outputs
unfolding validate_cuda_output_aliases
validate_cuda_output_aliases-AllApart inputs outputs h =
    let (apart, distinct) =
      >>-eq-ok (check_inputs_apart inputs outputs) (check_outputs_apart outputs) h in
    (inputs-Apart inputs outputs apart, outputs-AllApart outputs distinct)

-- ===== src/Llm/Outputs/ValueLaws.antt =====
-- What the values of a tensor amount to: which bytes are read, and how many values they make.
use tensorrt_rs.Prelude.{
  ℕ, zero, suc, ◌*◌, ◌/◌, ◌≡◌, refl, ap, subst, ok_injected, ◌∙◌, ◌⊎◌, inl, inr, Bool-cases, true,
  false, List, [], ◌∷◌, map, Result, ok, err, ◌>>=◌, ◌>>◌, >>=-eq-ok, length, ==_iff, nat_eq, arith,
  length-map, not, reject,
}
use native.Mathlib.Nat.{mul_assoc}
use tensorrt_rs.DataType.{DataType}
use tensorrt_rs.Tensor.{chunks, checked_mul}
use tensorrt_rs.Llm.DataTypes.{data_type_size}
use tensorrt_rs.Llm.Errors.{Error}
use tensorrt_rs.Llm.Outputs.Values.{
  TensorData, is_multiple_of, from_bytes, elem_count, elements, validate_tensor_len, chunks_exact,
}

abbrev pub product : List ℕ → ℕ
product [] = 1
product (d ∷ ds) = d * product ds

length-chunks : (count size : ℕ) (bs : List ℕ) → length (chunks count size bs) ≡ count
unfolding chunks
length-chunks zero size bs = refl
length-chunks (suc count) size bs = ap suc (length-chunks count size _)

counted :
    {A : Type 0} (f : List ℕ → A) (size : ℕ) (bs : List ℕ)
    → length (map f (chunks_exact size bs)) ≡ length bs / size
counted f size bs =
    rw (length-map f (chunks_exact size bs)) (length-chunks (length bs / size) size bs)

-- Bytes of a supported type are read exactly when their number is a multiple of its size.
abbrev pub Reads : DataType → ℕ → List ℕ → Type 0
Reads t size bs =
    ((is_multiple_of (length bs) size ≡ true)
      × ((v : TensorData) × (from_bytes t bs ≡ ok v) × (elem_count v ≡ length bs / size)))
    ⊎ ((is_multiple_of (length bs) size ≡ false) × ((e : Error) × (from_bytes t bs ≡ err e)))

-- Either outcome of a reading in words.
words :
    {A : Type 0} (f : List ℕ → A) (wrap : List A → TensorData) (e : Error) (size : ℕ) (bs : List ℕ)
    → ((vs : List A) → elem_count (wrap vs) ≡ length vs)
    → let read : Result Error TensorData =
        (reject (not (is_multiple_of (length bs) size)) e >> ok (map f (chunks_exact size bs)))
        >>= λ vs. ok (wrap vs) in
      ((is_multiple_of (length bs) size ≡ true)
        × ((v : TensorData) × (read ≡ ok v) × (elem_count v ≡ length bs / size)))
      ⊎ ((is_multiple_of (length bs) size ≡ false) × ((e' : Error) × (read ≡ err e')))
words f wrap e size bs whole = elim (Bool-cases (is_multiple_of (length bs) size)) [
  | inl m ↦
      let vs = map f (chunks_exact size bs) in
      inl (m, (wrap vs, rw m, whole vs ∙ counted f size bs))
  | inr m ↦ inr (m, (e, rw m))
]

pub from_bytes-Reads :
    (t : DataType) (size : ℕ) (bs : List ℕ) → data_type_size t ≡ ok size → Reads t size bs
unfolding data_type_size from_bytes elem_count
from_bytes-Reads DataType.uint8 size bs h =
    subst (λ n. Reads DataType.uint8 n bs) (ok_injected h)
      (inl (ground arith, (TensorData.uint8 bs, refl, ground arith)))
from_bytes-Reads DataType.int32 size bs h =
    subst (λ n. Reads DataType.int32 n bs) (ok_injected h)
      (words _ TensorData.int32 _ 4 bs (λ vs. refl))
from_bytes-Reads DataType.int64 size bs h =
    subst (λ n. Reads DataType.int64 n bs) (ok_injected h)
      (words _ TensorData.int64 _ 8 bs (λ vs. refl))
from_bytes-Reads DataType.bf16 size bs h =
    subst (λ n. Reads DataType.bf16 n bs) (ok_injected h)
      (words _ TensorData.bf16 _ 2 bs (λ vs. refl))
from_bytes-Reads DataType.half size bs h =
    subst (λ n. Reads DataType.half n bs) (ok_injected h)
      (words _ TensorData.float16 _ 2 bs (λ vs. refl))
from_bytes-Reads DataType.float size bs h =
    subst (λ n. Reads DataType.float n bs) (ok_injected h)
      (words _ TensorData.float32 _ 4 bs (λ vs. refl))
from_bytes-Reads t size bs h = absurd (cc)

pub unsupported_not_read :
    (t : DataType) {e : Error} (bs : List ℕ)
    → data_type_size t ≡ err e
    → (e' : Error) × (from_bytes t bs ≡ err e')
unfolding data_type_size from_bytes
unsupported_not_read DataType.uint8 bs h = absurd (cc)
unsupported_not_read DataType.int32 bs h = absurd (cc)
unsupported_not_read DataType.int64 bs h = absurd (cc)
unsupported_not_read DataType.bf16 bs h = absurd (cc)
unsupported_not_read DataType.half bs h = absurd (cc)
unsupported_not_read DataType.float bs h = absurd (cc)
unsupported_not_read t bs h = (_, refl)

elements-product :
    (acc : ℕ) (dims : List ℕ) {n : ℕ} → elements acc dims ≡ ok n → n ≡ acc * product dims
unfolding elements checked_mul
elements-product acc [] h = ground arith
elements-product acc (d ∷ ds) h =
    let (m, e, h') = >>=-eq-ok _ (λ m. elements m ds) h in
    ground (arith, elements-product m ds h', mul_assoc acc d (product ds))

pub validate_tensor_len-product :
    (count : ℕ) (shape : List ℕ) → validate_tensor_len count shape ≡ ok tt → count ≡ product shape
unfolding validate_tensor_len
validate_tensor_len-product count shape h =
    let (n, e, h') = >>=-eq-ok (elements 1 shape) _ h in
    ground (arith, elements-product 1 shape e, ==_iff count n)

-- ===== src/Tensor/SizeLaws.antt =====
-- What the sizes of tensors amount to (`element_count`, `tensor_byte_len`, `bytes_into_vec`).
use mathlib.Core.List.{flatten}
use tensorrt_rs.Prelude.{
  ℕ, zero, suc, ◌-◌, ◌*◌, ◌/◌, ◌%◌, ◌≡◌, ◌≤◌, ◌<◌, ◌∙◌, ap, sym, refl, String, Bool-cases, inl, inr,
  List, [], ◌∷◌, ◌++◌, some, ℤ, pos, negsuc, Result, ok, ok_or, ◌>>=◌, >>=-eq-ok, All, length, take,
  drop, magnitude, arith, Option-cases, false, is_negative, ◌==◌, ==_iff, nat_eq,
}
use native.Mathlib.Nat.{mul_assoc, mul-pos, le-mul_of_pos_right}
use tensorrt_rs.DataType.{DataType, bytes_per_element}
use tensorrt_rs.Errors.{Error, invalid_shape, Reason, byte_size_overflow}
use tensorrt_rs.Tensor.Defs.{Dims}
use tensorrt_rs.Tensor.Size.{
  usize_mod, checked_mul, count_step, count_from, element_count, tensor_byte_len, chunks,
  bytes_into_vec,
}

-- The product of the dimensions, as a number without a bound.
abbrev pub product : List ℤ → ℕ
product [] = 1
product (d ∷ ds) = magnitude d * product ds

abbrev pub IsConcrete : List ℤ → Type 0
IsConcrete = All (λ d. is_negative d ≡ false)

product-pos : (ds : List ℤ) → All (λ d. 0 < magnitude d) ds → 0 < product ds
product-pos [] h = omega arith
product-pos (d ∷ ds) (h, hs) = mul-pos h (product-pos ds hs)

checked_mul_fits : (a b : ℕ) → a * b < usize_mod → checked_mul a b ≡ some (a * b)
unfolding checked_mul
checked_mul_fits a b h = ground arith

module _ (tensor : String) (shape : Dims) where
  count_step-ok :
      (acc : ℕ) (d : ℤ) {n : ℕ}
      → count_step tensor shape acc d ≡ ok n
      → (is_negative d ≡ false) × (n ≡ acc * magnitude d) × (n < usize_mod)
  unfolding count_step
  count_step-ok acc (pos k) h = ground arith
  count_step-ok acc (negsuc k) h = ground arith

  pub count_from-ok :
      (ds : List ℤ) (acc : ℕ) {n : ℕ}
      → acc < usize_mod
      → count_from tensor shape acc ds ≡ ok n
      → IsConcrete ds × (n ≡ acc * product ds) × (n < usize_mod)
  unfolding count_from
  count_from-ok [] acc b h = (tt, ground arith, ground arith)
  count_from-ok (d ∷ ds) acc {n = n} b h =
      let (m, e, h') =
        >>=-eq-ok (count_step tensor shape acc d) (λ m. count_from tensor shape m ds) h in
      let (c, v, b') = count_step-ok acc d e in
      let (cs, v', b'') = count_from-ok ds m b' h' in
      ((c, cs), v' ∙ ap (λ t. t * product ds) v ∙ mul_assoc acc (magnitude d) (product ds), b'')

  -- If every dimension is positive and the product fits, no partial product overflows.
  pub count_from_total :
      (ds : List ℤ) (acc : ℕ)
      → 0 < acc
      → All (λ d. 0 < magnitude d) ds
      → acc * product ds < usize_mod
      → count_from tensor shape acc ds ≡ ok (acc * product ds)
  unfolding count_from count_step
  count_from_total [] acc a p b = ground arith
  count_from_total (negsuc k ∷ ds) acc a p b = absurd (omega arith)
  count_from_total (pos k ∷ ds) acc a (p, ps) b =
      let whole : acc * k * product ds ≡ acc * (k * product ds) = mul_assoc acc k (product ds) in
      let below : acc * k ≤ acc * k * product ds =
        le-mul_of_pos_right (acc * k) (product-pos ds ps) in
      rw (checked_mul_fits acc k (omega (arith, below, whole)))
        (count_from_total ds (acc * k) (mul-pos a p) ps (omega (arith, whole)) ∙ ap ok whole)

-- A count that is given is the product of the dimensions, of a shape in which none is dynamic, and
-- fits in a `usize`.
pub element_count-ok :
    (tensor : String) (shape : Dims) {n : ℕ}
    → element_count tensor shape ≡ ok n
    → IsConcrete shape.values × (n ≡ product shape.values) × (n < usize_mod)
unfolding element_count
element_count-ok tensor shape h =
    let (c, v, b) = count_from-ok tensor shape shape.values 1 (omega arith) h in
    (c, omega (arith, v), b)

element_count_total :
    (tensor : String) (shape : Dims)
    → All (λ d. 0 < magnitude d) shape.values
    → product shape.values < usize_mod
    → element_count tensor shape ≡ ok (product shape.values)
unfolding element_count
element_count_total tensor shape ps b =
    count_from_total tensor shape shape.values 1 (omega arith) ps (omega arith)
    ∙ ap ok (omega arith)

bytes_per_element-pos : (t : DataType) {size : ℕ} → bytes_per_element t ≡ some size → 0 < size
unfolding bytes_per_element
bytes_per_element-pos t h = ground arith

-- The last two steps of `tensor_byte_len`.
abbrev scaled : String → DataType → ℕ → Result Error ℕ
scaled tensor t elements = do
  size ← ok_or (bytes_per_element t) (invalid_shape tensor (Reason.unsupported_data_type t))
  ok_or (checked_mul elements size) (invalid_shape tensor byte_size_overflow)

scaled-ok :
    (tensor : String) (t : DataType) (m : ℕ) {n : ℕ}
    → scaled tensor t m ≡ ok n
    → (size : ℕ) × (bytes_per_element t ≡ some size) × (n ≡ m * size) × (n < usize_mod)
unfolding checked_mul
scaled-ok tensor t m h = elim (Option-cases (bytes_per_element t)) [
  | inl e ↦ absurd (ground arith)
  | inr (size, e) ↦ (size, e, ground arith, ground arith)
]

-- A byte length is only given for a concrete shape and a data type of whole bytes. It is the
-- product of the dimensions times the size of an element, with no wrap-around.
pub tensor_byte_len-ok :
    (tensor : String) (shape : Dims) (t : DataType) {n : ℕ}
    → tensor_byte_len tensor shape t ≡ ok n
    → (size : ℕ) × (bytes_per_element t ≡ some size)
      × IsConcrete shape.values
      × (n ≡ product shape.values * size)
      × (n < usize_mod)
unfolding tensor_byte_len
tensor_byte_len-ok tensor shape t {n = n} h =
    let (m, e, h') = >>=-eq-ok (element_count tensor shape) (scaled tensor t) h in
    let (c, v, _) = element_count-ok tensor shape e in
    let (size, es, w, b) = scaled-ok tensor t m h' in (size, es, c, w ∙ ap (λ k. k * size) v, b)

-- A concrete shape of positive dimensions whose size in bytes fits has that size.
pub tensor_byte_len_total :
    (tensor : String) (shape : Dims) (t : DataType) {size : ℕ}
    → bytes_per_element t ≡ some size
    → All (λ d. 0 < magnitude d) shape.values
    → product shape.values * size < usize_mod
    → tensor_byte_len tensor shape t ≡ ok (product shape.values * size)
unfolding tensor_byte_len
tensor_byte_len_total tensor shape t {size = size} es ps b =
    let whole : product shape.values ≤ product shape.values * size =
      le-mul_of_pos_right (product shape.values) (bytes_per_element-pos t es) in
    rw (
      element_count_total tensor shape ps (omega (arith, whole)),
      es,
      checked_mul_fits (product shape.values) size b,
    )

pub length-take : (k : ℕ) (xs : List ℕ) → k ≤ length xs → length (take k xs) ≡ k
length-take zero xs h = refl
length-take (suc k) [] h = elim h [ ]
length-take (suc k) (x ∷ xs) h = ap suc (length-take k xs (omega arith))

length-drop : (k : ℕ) (xs : List ℕ) → length (drop k xs) ≡ length xs - k
length-drop zero xs = omega arith
length-drop (suc k) [] = omega arith
length-drop (suc k) (x ∷ xs) = omega (arith, length-drop k xs)

take-append-drop : (k : ℕ) (xs : List ℕ) → take k xs ++ drop k xs ≡ xs
take-append-drop zero xs = refl
take-append-drop (suc k) [] = refl
take-append-drop (suc k) (x ∷ xs) = rw (take-append-drop k xs)

chunks_lossless :
    (n k : ℕ) (bytes : List ℕ)
    → length bytes ≡ n * k
    → (length (chunks n k bytes) ≡ n)
      × All (λ c. length c ≡ k) (chunks n k bytes)
      × (flatten (chunks n k bytes) ≡ bytes)
unfolding chunks flatten
chunks_lossless zero k [] h = (refl, tt, refl)
chunks_lossless zero k (b ∷ bytes) h = absurd (omega arith)
chunks_lossless (suc n) k bytes h =
    let (l, a, f) = chunks_lossless n k (drop k bytes) (omega (arith, length-drop k bytes)) in
    (
      ap suc l,
      (length-take k bytes (omega arith), a),
      ap (◌++◌ (take k bytes)) f ∙ take-append-drop k bytes,
    )

-- Bytes that are read as values make whole values: there are as many values as fit, each has the
-- bytes of one value, and together they are the bytes that were read, in order.
pub bytes_into_vec-ok :
    (size : ℕ) (bytes : List ℕ) {values : List (List ℕ)}
    → bytes_into_vec size bytes ≡ ok values
    → (length bytes ≡ length values * size)
      × All (λ c. length c ≡ size) values
      × (flatten values ≡ bytes)
unfolding bytes_into_vec
bytes_into_vec-ok size bytes {values = values} h = elim (Bool-cases (length bytes % size == 0)) [
  | inl e ↦
      let whole : length bytes ≡ length bytes / size * size =
        grind (arith, (==_iff (length bytes % size) 0).0 e) in
      let read : chunks (length bytes / size) size bytes ≡ values = ground arith in
      let (l, a, f) = chunks_lossless (length bytes / size) size bytes whole in
      rw (← read) (whole ∙ ap (λ n. n * size) (sym l), a, f)
  | inr e ↦ absurd (ground arith)
]

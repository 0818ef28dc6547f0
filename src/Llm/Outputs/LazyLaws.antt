-- ===== src/Llm/Outputs/LazyLaws.antt =====
-- `LazyTensor`: a tensor that is made later is the tensor that would have been made at once.
use tensorrt_rs.Prelude.{
  ℕ, ◌*◌, ◌/◌, ◌≤◌, ◌≡◌, refl, sym, ap, subst, ◌∙◌, inl, inr, Bool-cases, true, false, List, Option,
  some, none, Result, ok, err, ◌>>=◌, ◌>>◌, length, nat_eq, arith, Result-cases, ltb, ◌&&◌,
}
use tensorrt_rs.Prelude.Pointers.{Pointer, null, at, is_null}
use tensorrt_rs.DataType.{DataType}
use tensorrt_rs.Tensor.{checked_mul, usize_mod}
use tensorrt_rs.Tensor.SizeLaws.{length-take}
use tensorrt_rs.Llm.DataTypes.{data_type_size, data_type_from_executor_i32}
use tensorrt_rs.Llm.Errors.{Error, invalid_argument, null_data}
use tensorrt_rs.Llm.Outputs.Values.{
  TensorData, is_multiple_of, from_bytes, elem_count, validate_tensor_len,
}
use tensorrt_rs.Llm.Outputs.ValueLaws.{
  product, from_bytes-Reads, unsupported_not_read, validate_tensor_len-product,
}
use tensorrt_rs.Llm.Outputs.Sys.{OwnedTensor}
use tensorrt_rs.Llm.Outputs.Lazy.{
  RawOutputGuard, raw_bytes, raw_elem_count, new_raw_data, bytes, shape_of, LazyTensor,
  new_deferred, from_raw_tensor, from_owned_in, from_owned, from_typed_raw_in, from_typed_raw,
  into_tensor, materialize, cell,
}

-- Both fail, or both succeed with related values.
abbrev pub Related : {E A B : Type 0} → (A → B → Type 0) → Result E A → Result E B → Type 0
Related R (ok a) (ok b) = R a b
Related R (ok a) (err e) = ⊥
Related R (err e) (ok b) = ⊥
Related R (err e) (err e') = Unit

module _ {E A B C D : Type 0} (R : A → B → Type 0) (S : C → D → Type 0) where
  pub >>=-Related :
      (m : Result E A) (n : Result E B) (f : A → Result E C) (g : B → Result E D)
      → Related R m n
      → ((a : A) (b : B) → R a b → Related S (f a) (g b))
      → Related S (m >>= f) (n >>= g)
  >>=-Related (ok a) (ok b) f g r next = next a b r
  >>=-Related (ok a) (err e) f g r next = absurd r
  >>=-Related (err e) (ok b) f g r next = absurd r
  >>=-Related (err e) (err e') f g r next = tt

-- The same call first, and then related ones.
pub same_first :
    {E A C D : Type 0} (S : C → D → Type 0) (m : Result E A) (f : A → Result E C)
    (g : A → Result E D)
    → ((a : A) → Related S (f a) (g a))
    → Related S (m >>= f) (m >>= g)
same_first S (ok a) f g next = next a
same_first S (err e) f g next = tt

-- The memory of an array holds as many bytes as it is said to.
abbrev pub Holds {ℓ} : {A : Type ℓ} → Pointer (List A) → ℕ → Type 0
Holds null n = Unit
Holds (at xs) n = n ≤ length xs

read-length :
    (t : DataType) (p : Pointer (List ℕ)) (n : ℕ)
    → Holds p n
    → (ltb 0 n && is_null p) ≡ false
    → length (raw_bytes (record { data_type = t; ptr = p; byte_len = n })) ≡ n
unfolding raw_bytes
read-length t null n h k = ground arith
read-length t (at xs) n h k = ground (arith, length-take n xs)

-- Candle makes a tensor of values that fill its shape.
module _ {Tensor E : Type 0} (from_vec : TensorData → List ℕ → Result E Tensor)
    (made : (values : TensorData) (shape : List ℕ)
      → elem_count values ≡ product shape
      → (t : Tensor) × (from_vec values shape ≡ ok t)) where
  -- Two outputs that are the same tensor when they are asked for it; neither panics.
  abbrev pub SameTensor : LazyTensor Tensor → LazyTensor Tensor → Type 0
  SameTensor a b = (t : Tensor) × (into_tensor from_vec a ≡ ok t) × (into_tensor from_vec b ≡ ok t)

  -- Values of the one length that is checked, made into a tensor now or later.
  validated :
      (count : ℕ) (shape : List ℕ) (a b : LazyTensor Tensor)
      → (count ≡ product shape → SameTensor a b)
      → Related SameTensor
          (validate_tensor_len count shape >> ok a)
          (validate_tensor_len count shape >> ok b)
  validated count shape a b same = elim (Result-cases (validate_tensor_len count shape)) [
    | inl (tt, e) ↦ rw e (same (validate_tensor_len-product count shape e))
    | inr (f, e) ↦ rw e tt
  ]

  -- The bytes that are copied at once, and those that are read later.
  raw_or_copied :
      (t : DataType) (size : ℕ) (p : Pointer (List ℕ)) (n : ℕ) (shape : List ℕ) (g : RawOutputGuard)
      → data_type_size t ≡ ok size
      → (bs : List ℕ) → raw_bytes (record { data_type = t; ptr = p; byte_len = n }) ≡ bs
      → length bs ≡ n
      → Related SameTensor
          (from_bytes t bs >>= λ v. new_deferred v shape)
          (from_raw_tensor (record { data_type = t; ptr = p; byte_len = n }) shape g)
  unfolding new_deferred from_raw_tensor raw_elem_count into_tensor materialize cell
  raw_or_copied t size p n shape g h bs read whole = elim (from_bytes-Reads t size bs h) [
    | inl (m, (v, r, c)) ↦
        let m' : is_multiple_of n size ≡ true = subst (λ k. is_multiple_of k size ≡ true) whole m in
        let c' : elem_count v ≡ n / size = c ∙ ap (λ k. k / size) whole in
        rw (r, h, m', ← c')
          (validated (elem_count v) shape _ _
            (λ fits. let (made_of, e) = made v shape fits in (made_of, rw e, rw (read, r, e))))
    | inr (m, (e, r)) ↦
        let m' : is_multiple_of n size ≡ false =
          subst (λ k. is_multiple_of k size ≡ false) whole m in
        rw (r, h, m') tt
  ]

  same_later :
      (m n k : Result Error (LazyTensor Tensor))
      → Related SameTensor m n
      → Related SameTensor m k
      → Related SameTensor n k
  same_later (ok a) (ok b) (ok c) (t, x, y) (t', x', y') = (t, y, y' ∙ sym x' ∙ x)
  same_later (ok a) (ok b) (err e) h h' = absurd h'
  same_later (ok a) (err e) k h h' = absurd h
  same_later (err e) (ok b) k h h' = absurd h
  same_later (err e) (err e') (ok c) h h' = absurd h'
  same_later (err e) (err e') (err e'') h h' = tt

  same_swap :
      (m n : Result Error (LazyTensor Tensor)) → Related SameTensor m n → Related SameTensor n m
  same_swap (ok a) (ok b) (t, x, y) = (t, y, x)
  same_swap (ok a) (err e) h = absurd h
  same_swap (err e) (ok b) h = absurd h
  same_swap (err e) (err e') h = tt

  -- What is the same with and without each guard is the same under any two.
  pub guarded :
      (f : Option RawOutputGuard → Result Error (LazyTensor Tensor))
      → RawOutputGuard
      → ((g : RawOutputGuard) → Related SameTensor (f none) (f (some g)))
      → (g g' : Option RawOutputGuard) → Related SameTensor (f g) (f g')
  guarded f some_guard same none none =
      let h = same_swap (f none) (f (some some_guard)) (same some_guard) in
      same_later (f (some some_guard)) (f none) (f none) h h
  guarded f some_guard same none (some g') = same g'
  guarded f some_guard same (some g) none = same_swap (f none) (f (some g)) (same g)
  guarded f some_guard same (some g) (some g') =
      same_later (f none) (f (some g)) (f (some g')) (same g) (same g')

  missing :
      (o : OwnedTensor)
      → (ltb 0 o.byte_len && is_null o.contents) ≡ true
      → bytes o ≡ err (invalid_argument null_data)
  unfolding bytes
  missing o h = ground arith

  present :
      (o : OwnedTensor) (t : DataType)
      → (ltb 0 o.byte_len && is_null o.contents) ≡ false
      → bytes o ≡ ok (raw_bytes (record { data_type = t; ptr = o.contents; byte_len = o.byte_len }))
  unfolding bytes raw_bytes
  present o t h = ground arith

  unsupported_same :
      (t : DataType) (shape : List ℕ) (o : OwnedTensor) (g : RawOutputGuard) {e : Error}
      → data_type_size t ≡ err e
      → Related SameTensor (from_owned_in none t shape o) (from_owned_in (some g) t shape o)
  unfolding from_owned_in new_raw_data
  unsupported_same t shape o g h = elim (Result-cases (bytes o)) [
    | inl (bs, b) ↦ let (e', r) = unsupported_not_read t bs h in rw (b, r, h) tt
    | inr (e', b) ↦ rw (b, h) tt
  ]

  owned_same :
      (t : DataType) (shape : List ℕ) (o : OwnedTensor)
      → Holds o.contents o.byte_len
      → (g : RawOutputGuard)
      → Related SameTensor (from_owned_in none t shape o) (from_owned_in (some g) t shape o)
  unfolding from_owned_in new_raw_data
  owned_same t shape o holds g = elim (Result-cases (data_type_size t)) [
    | inr (e, h) ↦ unsupported_same t shape o g h
    | inl (size, h) ↦ elim (Bool-cases (ltb 0 o.byte_len && is_null o.contents)) [
      | inl m ↦ rw (missing o m, h, m) tt
      | inr m ↦
          rw (present o t m, h, m)
            (raw_or_copied t size o.contents o.byte_len shape g h _ refl
              (read-length t o.contents o.byte_len holds m))
    ]
  ]

  pub from_owned-guards :
      (o : OwnedTensor) (g g' : Option RawOutputGuard)
      → Holds o.contents o.byte_len
      → Related SameTensor (from_owned o g) (from_owned o g')
  unfolding from_owned
  from_owned-guards o g g' holds =
      same_first SameTensor (data_type_from_executor_i32 o.data_type) _ _ λ t.
        same_first SameTensor (shape_of o) _ _ λ shape.
          guarded (λ guard. from_owned_in guard t shape o) (record { owner = 0 })
            (owned_same t shape o holds) g g'

  test_agrees :
      (t : DataType) (size count n : ℕ)
      → data_type_size t ≡ ok size
      → n ≡ count * size
      → ltb 0 count ≡ ltb 0 n
  unfolding data_type_size
  test_agrees t size count n h total = ground arith

  -- The bytes of a typed array are missing exactly when the array is.
  typed_same :
      (t : DataType) (size : ℕ) (p : Pointer (List ℕ)) (count n : ℕ) (shape : List ℕ)
      → data_type_size t ≡ ok size
      → n ≡ count * size
      → Holds p n
      → (g : RawOutputGuard)
      → Related SameTensor
          (from_typed_raw_in none t p count n shape)
          (from_typed_raw_in (some g) t p count n shape)
  unfolding from_typed_raw_in new_raw_data raw_bytes
  typed_same t size p count n shape h total holds g =
      let same_test : ltb 0 count ≡ ltb 0 n = test_agrees t size count n h total in
      elim (Bool-cases (ltb 0 n && is_null p)) [
        | inl m ↦ rw (same_test, h, m) tt
        | inr m ↦
            rw (same_test, h, m)
              (raw_or_copied t size p n shape g h _ refl (read-length t p n holds m))
      ]

  pub from_typed_raw-guards :
      (t : DataType) (p : Pointer (List ℕ)) (count : ℕ) (shape : List ℕ)
      (g g' : Option RawOutputGuard)
      → ((size : ℕ) → data_type_size t ≡ ok size → Holds p (count * size))
      → Related SameTensor (from_typed_raw t p count shape g) (from_typed_raw t p count shape g')
  unfolding from_typed_raw checked_mul
  from_typed_raw-guards t p count shape g g' holds = elim (Result-cases (data_type_size t)) [
    | inr (e, h) ↦ rw h tt
    | inl (size, h) ↦ rw h (elim (Bool-cases (ltb (count * size) usize_mod)) [
      | inr m ↦ rw m tt
      | inl m ↦ rw m (
          guarded (λ guard. from_typed_raw_in guard t p count (count * size) shape)
            (record { owner = 0 })
            (typed_same t size p count (count * size) shape h refl (holds size h)) g g')
    ])
  ]

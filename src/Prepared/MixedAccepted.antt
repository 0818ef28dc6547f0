-- ===== src/Prepared/MixedAccepted.antt =====
-- Which mixed bindings a prepared session takes (`validate_prepared_mixed_inputs`).
use tensorrt_rs.Prelude.{
  ℕ, suc, ap, ◌≡◌, ◌≢◌, ◌↔◌, refl, List, [], ◌∷◌, Option, none, some, ok, >>-eq-ok, Option-cases,
  inl, inr, nat_eq, string_eq, length, arith, ==_iff,
}
use tensorrt_rs.DataType.{DataType, data_type_eq}
use tensorrt_rs.Tensor.{
  dims_eq, TensorInfo, InputBinding, host_bound, host_to_device, device_bound, HostInputTensor,
  binding_name,
}
use tensorrt_rs.Prepared.Defs.{
  PreparedInputKind, kind_eq, input_kind, validate_prepared_binding_name, validate_prepared_shape,
  validate_prepared_device_bytes, validate_prepared_host_input, validate_prepared_binding,
  validate_prepared_mixed_input, check_mixed_inputs, validate_prepared_mixed_inputs,
}

abbrev pub TypeAgrees : DataType → Option DataType → Type 0
TypeAgrees t none = Unit
TypeAgrees t (some u) = t ≡ u

-- A binding of the prepared shape and size, of its type where the binding has one, and, in device
-- memory, at an address.
abbrev pub Binds : TensorInfo → ℕ → InputBinding → Type 0
Binds e b (host_bound t) =
    (e.shape ≡ t.shape) × TypeAgrees e.data_type t.expected_data_type × (t.bytes.len ≡ b)
Binds e b (host_to_device t) =
    (e.shape ≡ t.shape) × TypeAgrees e.data_type t.expected_data_type × (t.bytes.len ≡ b)
Binds e b (device_bound t) =
    (e.shape ≡ t.shape) × (e.data_type ≡ t.data_type) × (t.bytes ≡ b) × (t.ptr ≢ 0)

-- A binding for each prepared tensor, in order, by its name, of the kind it was prepared with.
abbrev pub AllBind : List TensorInfo → List ℕ → List PreparedInputKind → List InputBinding → Type 0
AllBind [] [] [] [] = Unit
AllBind (e ∷ es) (b ∷ bs) (k ∷ ks) (t ∷ ts) =
    ((e.name ≡ binding_name t) × (input_kind t ≡ k) × Binds e b t) × AllBind es bs ks ts
AllBind _ _ _ _ = ⊥

module _ (e : TensorInfo) (b : ℕ) where
  host_iff :
      (t : HostInputTensor)
      → (validate_prepared_host_input e b t ≡ ok tt)
        ↔ ((e.shape ≡ t.shape) × TypeAgrees e.data_type t.expected_data_type × (t.bytes.len ≡ b))
  unfolding validate_prepared_host_input validate_prepared_shape
  host_iff t = elim (Option-cases t.expected_data_type) [
    | inl bare ↦ rw bare (
      λ h. ground (arith, ==_iff e.shape t.shape, ==_iff t.bytes.len b),
      λ h. ground (arith, ==_iff e.shape t.shape, ==_iff t.bytes.len b),
    )
    | inr (u, typed) ↦ rw typed (
      λ h. ground (arith, ==_iff e.shape t.shape, ==_iff e.data_type u, ==_iff t.bytes.len b),
      λ h. ground (arith, ==_iff e.shape t.shape, ==_iff e.data_type u, ==_iff t.bytes.len b),
    )
  ]

  binding_iff : (t : InputBinding) → (validate_prepared_binding e b t ≡ ok tt) ↔ Binds e b t
  unfolding validate_prepared_binding validate_prepared_shape validate_prepared_device_bytes
  binding_iff (host_bound t) = host_iff t
  binding_iff (host_to_device t) = host_iff t
  binding_iff (device_bound t) = (
    λ h. ground (
      arith,
      ==_iff e.shape t.shape,
      ==_iff e.data_type t.data_type,
      ==_iff t.bytes b,
      ==_iff t.ptr 0,
    ),
    λ h. ground (
      arith,
      ==_iff e.shape t.shape,
      ==_iff e.data_type t.data_type,
      ==_iff t.bytes b,
      ==_iff t.ptr 0,
    ),
  )

  mixed_iff :
      (k : PreparedInputKind) (t : InputBinding)
      → (validate_prepared_mixed_input e b k t ≡ ok tt)
        ↔ ((e.name ≡ binding_name t) × (input_kind t ≡ k) × Binds e b t)
  unfolding validate_prepared_mixed_input validate_prepared_binding_name
  mixed_iff k t = (
    λ h. ground (arith, ==_iff e.name (binding_name t), ==_iff (input_kind t) k, binding_iff t),
    λ h. ground (arith, ==_iff e.name (binding_name t), ==_iff (input_kind t) k, binding_iff t),
  )

check_mixed_iff :
    (es : List TensorInfo) (bs : List ℕ) (ks : List PreparedInputKind) (ts : List InputBinding)
    → length bs ≡ length es
    → length ks ≡ length es
    → length ts ≡ length es
    → (check_mixed_inputs es bs ks ts ≡ ok tt) ↔ AllBind es bs ks ts
unfolding check_mixed_inputs
check_mixed_iff [] [] [] [] l m n = (λ _. tt, λ _. refl)
check_mixed_iff [] (b ∷ bs) ks ts l m n = absurd (omega arith)
check_mixed_iff [] [] (k ∷ ks) ts l m n = absurd (omega arith)
check_mixed_iff [] [] [] (t ∷ ts) l m n = absurd (omega arith)
check_mixed_iff (e ∷ es) [] ks ts l m n = absurd (omega arith)
check_mixed_iff (e ∷ es) (b ∷ bs) [] ts l m n = absurd (omega arith)
check_mixed_iff (e ∷ es) (b ∷ bs) (k ∷ ks) [] l m n = absurd (omega arith)
check_mixed_iff (e ∷ es) (b ∷ bs) (k ∷ ks) (t ∷ ts) l m n =
    let rest = check_mixed_iff es bs ks ts (omega arith) (omega arith) (omega arith) in
    (
      λ h.
          let (here, later) =
            >>-eq-ok (validate_prepared_mixed_input e b k t) (check_mixed_inputs es bs ks ts) h in
          ((mixed_iff e b k t).0 here, rest.0 later),
      λ a. rw ((mixed_iff e b k t).1 a.0, rest.1 a.1),
    )

AllBind-length :
    (es : List TensorInfo) (bs : List ℕ) (ks : List PreparedInputKind) (ts : List InputBinding)
    → AllBind es bs ks ts
    → length ts ≡ length es
AllBind-length [] [] [] [] a = refl
AllBind-length (e ∷ es) (b ∷ bs) (k ∷ ks) (t ∷ ts) a = ap suc (AllBind-length es bs ks ts a.1)
AllBind-length [] (b ∷ bs) ks ts a = absurd a
AllBind-length [] [] (k ∷ ks) ts a = absurd a
AllBind-length [] [] [] (t ∷ ts) a = absurd a
AllBind-length (e ∷ es) [] ks ts a = absurd a
AllBind-length (e ∷ es) (b ∷ bs) [] ts a = absurd a
AllBind-length (e ∷ es) (b ∷ bs) (k ∷ ks) [] a = absurd a

-- For a size and a kind of each prepared tensor, mixed bindings pass exactly when there is one for
-- each tensor, in order, with its name, kind, shape and size, with its type where the binding
-- states one, and, in device memory, at a non-null address.
pub validate_prepared_mixed_inputs_iff :
    (infos : List TensorInfo) (bytes : List ℕ) (kinds : List PreparedInputKind)
    (inputs : List InputBinding)
    → length bytes ≡ length infos
    → length kinds ≡ length infos
    → (validate_prepared_mixed_inputs infos bytes kinds inputs ≡ ok tt)
      ↔ AllBind infos bytes kinds inputs
unfolding validate_prepared_mixed_inputs
validate_prepared_mixed_inputs_iff infos bytes kinds inputs l m = (
  λ h.
      let counted : length inputs ≡ length infos =
        ground (arith, ==_iff (length inputs) (length infos)) in
      (check_mixed_iff infos bytes kinds inputs l m counted).0 (ground arith),
  λ a.
      let counted = AllBind-length infos bytes kinds inputs a in
      rw (
        (==_iff (length inputs) (length infos)).1 counted,
        (check_mixed_iff infos bytes kinds inputs l m counted).1 a,
      ),
)

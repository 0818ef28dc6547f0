-- ===== src/Prepared/Accepted.antt =====
-- Which bindings a prepared session takes (`validate_prepared_inputs` on what
-- `PreparedDeviceSession::new` has recorded).
use tensorrt_rs.Prelude.{
  ℕ, ◌≡◌, ◌≢◌, ◌↔◌, refl, List, [], ◌∷◌, ok, >>=-eq-ok, >>-eq-ok, ok_injected, subst, sym, ◌∙◌,
  reject, ◌==◌, nat_eq, string_eq, length, try_map, AllPairs, AllPairs-length, arith, ==_iff,
}
use tensorrt_rs.DataType.{data_type_eq}
use tensorrt_rs.Errors.{invalid_shape, null_input}
use tensorrt_rs.Tensor.{dims_eq, TensorInfo, DeviceInputTensor, tensor_byte_len}
use tensorrt_rs.Engine.{ExecutionContext}
use tensorrt_rs.Prepared.Defs.{
  validate_prepared_binding_name, validate_prepared_shape, validate_prepared_device_bytes,
  validate_prepared_input, check_inputs, validate_prepared_inputs, prepared_tensor_bytes,
}
use tensorrt_rs.Prepared.State.{PreparedDeviceSession, new_prepared}

-- The input is the prepared one: its name, shape and type, that many bytes, at an address.
abbrev pub Matches : TensorInfo → ℕ → DeviceInputTensor → Type 0
Matches e b t =
    (e.name ≡ t.name)
    × (e.shape ≡ t.shape)
    × (e.data_type ≡ t.data_type)
    × (t.bytes ≡ b)
    × (t.ptr ≢ 0)

-- A binding for every prepared tensor, in the prepared order, each of the prepared size.
abbrev pub MatchesPrepared : List TensorInfo → List DeviceInputTensor → Type 0
MatchesPrepared = AllPairs (λ (e : TensorInfo) (t : DeviceInputTensor).
    (b : ℕ) × (tensor_byte_len e.name e.shape e.data_type ≡ ok b) × Matches e b t)

module _ (e : TensorInfo) (b : ℕ) (t : DeviceInputTensor) where
  name_iff : (validate_prepared_binding_name e t.name "input" ≡ ok tt) ↔ (e.name ≡ t.name)
  unfolding validate_prepared_binding_name
  name_iff = (λ h. ground (arith, ==_iff e.name t.name), λ h. ground (arith, ==_iff e.name t.name))

  shape_iff : (validate_prepared_shape e t.shape ≡ ok tt) ↔ (e.shape ≡ t.shape)
  unfolding validate_prepared_shape
  shape_iff =
      (λ h. ground (arith, ==_iff e.shape t.shape), λ h. ground (arith, ==_iff e.shape t.shape))

  bytes_iff :
      (validate_prepared_device_bytes e b t.data_type t.bytes ≡ ok tt)
      ↔ ((e.data_type ≡ t.data_type) × (t.bytes ≡ b))
  unfolding validate_prepared_device_bytes
  bytes_iff = (
    λ h. ground (arith, ==_iff e.data_type t.data_type, ==_iff t.bytes b),
    λ h. ground (arith, ==_iff e.data_type t.data_type, ==_iff t.bytes b),
  )

  pointer_iff : (reject (t.ptr == 0) (invalid_shape t.name null_input) ≡ ok tt) ↔ (t.ptr ≢ 0)
  pointer_iff = (λ h p. ground (arith, ==_iff t.ptr 0), λ h. ground (arith, ==_iff t.ptr 0))

  validate_prepared_input_iff : (validate_prepared_input e b t ≡ ok tt) ↔ Matches e b t
  unfolding validate_prepared_input
  validate_prepared_input_iff = (
    λ h.
        let (name, h₁) = >>-eq-ok (validate_prepared_binding_name e t.name "input") _ h in
        let (shape, h₂) = >>-eq-ok (validate_prepared_shape e t.shape) _ h₁ in
        let (bytes, pointer) =
          >>-eq-ok (validate_prepared_device_bytes e b t.data_type t.bytes) _ h₂ in
        let (same, size) = bytes_iff.0 bytes in
        (name_iff.0 name, shape_iff.0 shape, same, size, pointer_iff.0 pointer),
    λ m. rw (name_iff.1 m.0, shape_iff.1 m.1, bytes_iff.1 (m.2, m.3), pointer_iff.1 m.4),
  )

check_inputs_iff :
    (infos : List TensorInfo) (bytes : List ℕ) (ts : List DeviceInputTensor)
    → prepared_tensor_bytes infos ≡ ok bytes
    → length ts ≡ length infos
    → (check_inputs infos bytes ts ≡ ok tt) ↔ MatchesPrepared infos ts
unfolding check_inputs prepared_tensor_bytes try_map
check_inputs_iff [] bytes [] h l = (λ _. tt, λ _. refl)
check_inputs_iff [] bytes (t ∷ ts) h l = absurd (ground arith)
check_inputs_iff (e ∷ es) bytes [] h l = absurd (ground arith)
check_inputs_iff (e ∷ es) bytes (t ∷ ts) h l =
    let (b, sized, h₁) = >>=-eq-ok (tensor_byte_len e.name e.shape e.data_type) _ h in
    let (bs, rest, h₂) = >>=-eq-ok (prepared_tensor_bytes es) (λ bs. ok (b ∷ bs)) h₁ in
    let tail = check_inputs_iff es bs ts rest (omega (arith, l)) in
    subst (λ v. (check_inputs (e ∷ es) v (t ∷ ts) ≡ ok tt) ↔ MatchesPrepared (e ∷ es) (t ∷ ts))
      (ok_injected h₂)
      (
        λ c.
            let (here, later) =
              >>-eq-ok (validate_prepared_input e b t) (check_inputs es bs ts) c in
            ((b, sized, (validate_prepared_input_iff e b t).0 here), tail.0 later),
        λ m.
            let same = ok_injected (sym m.0.1 ∙ sized) in
            rw (
              (validate_prepared_input_iff e b t).1 (subst (λ v. Matches e v t) same m.0.2),
              tail.1 m.1,
            ),
      )

-- A prepared session takes device inputs exactly when there is one for each tensor that was
-- prepared, in order, with its name, shape and type, at a non-null address, and with the bytes that
-- its shape takes.
pub validate_prepared_inputs_iff :
    {Raw : Type 0} (c : ExecutionContext Raw) (inputs outputs : List TensorInfo)
    {p : PreparedDeviceSession Raw} (ts : List DeviceInputTensor)
    → new_prepared c inputs outputs ≡ ok p
    → (validate_prepared_inputs p.input_infos p.input_bytes ts ≡ ok tt) ↔ MatchesPrepared inputs ts
unfolding new_prepared validate_prepared_inputs
validate_prepared_inputs_iff c inputs outputs {p = p} ts h =
    let (bs, sized, h₁) = >>=-eq-ok (prepared_tensor_bytes inputs) _ h in
    let (os, _, made) = >>=-eq-ok (prepared_tensor_bytes outputs) _ h₁ in
    subst
      (λ (q : PreparedDeviceSession _).
        (validate_prepared_inputs q.input_infos q.input_bytes ts ≡ ok tt)
        ↔ MatchesPrepared inputs ts)
      (ok_injected made)
      (
        λ v.
            let counted : length ts ≡ length inputs =
              ground (arith, ==_iff (length ts) (length inputs)) in
            (check_inputs_iff inputs bs ts sized counted).0 (ground arith),
        λ m.
            let counted = sym (AllPairs-length _ inputs ts m) in
            rw (
              (==_iff (length ts) (length inputs)).1 counted,
              (check_inputs_iff inputs bs ts sized counted).1 m,
            ),
      )

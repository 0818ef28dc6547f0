-- ===== src/Session/CleanContext.antt =====
-- What `clear_tensor_addresses` leaves of a run.
use tensorrt_rs.Prelude.{
  ℕ, ◌≡◌, ◌≢◌, ap, sym, subst, ◌∙◌, String, List, [], ◌∷◌, ok, Result-cases, All, inl, inr, arith,
  ==_iff, ◌==◌, string_eq, Bool-cases,
}
use tensorrt_rs.Prelude.Exec.{Exec, >>-ok, for_each}
use tensorrt_rs.Errors.{Error}
use tensorrt_rs.Tensor.{TensorInfo}
use tensorrt_rs.Engine.{Driver, ExecutionContext, set_tensor_address, tensor_name}
use tensorrt_rs.Engine.Laws.{AddressLaws, ShapeLaws}
use tensorrt_rs.Engine.ShapeCache.{tensor_name-ok, from_status-ok, IsCoherent}
use tensorrt_rs.Session.State.{IoTensors}
use tensorrt_rs.Session.Pool.{clear_tensor_addresses}

module _ {Raw Gpu : Type 0} (d : Driver Raw Gpu) where
  abbrev reset : List TensorInfo → Exec (ExecutionContext Raw) Error (Unit {0})
  reset = for_each (λ (t : TensorInfo). set_tensor_address d t.name 0)

module _ {Raw Gpu : Type 0} (d : Driver Raw Gpu) (laws : AddressLaws d) where
  open laws use {address, bind_same, bind_other}

  set_tensor_address-same :
      (n : String) (a : ℕ) (c : ExecutionContext Raw)
      → (set_tensor_address d n a c).0 ≡ ok tt
      → address (set_tensor_address d n a c).1.raw n ≡ a
  unfolding set_tensor_address
  set_tensor_address-same n a c h = elim (Result-cases (tensor_name n)) [
    | inl (m, e) ↦
        let e' : tensor_name n ≡ ok n = e ∙ ap ok (tensor_name-ok n e) in
        rw (e', set_tensor_address)
          (bind_same c.raw n a (from_status-ok _ (rw (e', set_tensor_address) at h)))
    | inr (bad, e) ↦ absurd (ground arith)
  ]

  set_tensor_address_other :
      (n m : String) (a : ℕ) (c : ExecutionContext Raw)
      → n ≢ m
      → address (set_tensor_address d n a c).1.raw m ≡ address c.raw m
  unfolding set_tensor_address
  set_tensor_address_other n m a c ne = elim (Result-cases (tensor_name n)) [
    | inl (k, e) ↦
        let e' : tensor_name n ≡ ok n = e ∙ ap ok (tensor_name-ok n e) in
        rw (e', set_tensor_address) (bind_other c.raw n m a ne)
    | inr (bad, e) ↦ ground arith
  ]

  -- A null address stays null while addresses are reset.
  reset_keeps :
      (n m : String) (c : ExecutionContext Raw)
      → (set_tensor_address d n 0 c).0 ≡ ok tt
      → address c.raw m ≡ 0
      → address (set_tensor_address d n 0 c).1.raw m ≡ 0
  reset_keeps n m c h z = elim (Bool-cases (n == m)) [
    | inl same ↦
        ap (address (set_tensor_address d n 0 c).1.raw) (sym ((==_iff n m).0 same))
        ∙ set_tensor_address-same n 0 c h
    | inr other ↦ set_tensor_address_other n m 0 c (ground (arith, ==_iff n m)) ∙ z
  ]

  reset_all_keeps :
      (ts : List TensorInfo) (m : String) (c : ExecutionContext Raw)
      → (reset d ts c).0 ≡ ok tt
      → address c.raw m ≡ 0
      → address (reset d ts c).1.raw m ≡ 0
  unfolding for_each
  reset_all_keeps [] m c h z = z
  reset_all_keeps (t ∷ ts) m c h z =
      let (done, same, rest) = >>-ok (set_tensor_address d t.name 0) (reset d ts) c h in
      ap (λ r. address r.1.raw m) same
      ∙ reset_all_keeps ts m (set_tensor_address d t.name 0 c).1 rest
          (reset_keeps t.name m c done z)

  reset-null :
      (ts : List TensorInfo) (c : ExecutionContext Raw)
      → (reset d ts c).0 ≡ ok tt
      → All (λ t. address (reset d ts c).1.raw t.name ≡ 0) ts
  unfolding for_each
  reset-null [] c h = tt
  reset-null (t ∷ ts) c h =
      let (done, same, rest) = >>-ok (set_tensor_address d t.name 0) (reset d ts) c h in
      subst (λ r. All (λ (u : TensorInfo). address r.1.raw u.name ≡ 0) (t ∷ ts)) (sym same)
        (
          reset_all_keeps ts t.name (set_tensor_address d t.name 0 c).1 rest
              (set_tensor_address-same t.name 0 c done),
          reset-null ts (set_tensor_address d t.name 0 c).1 rest,
        )

module _ {Raw Gpu : Type 0} (d : Driver Raw Gpu) (laws : ShapeLaws d) where
  open laws use {input_shape, address_keeps}

  set_tensor_address-IsCoherent :
      (n : String) (a : ℕ) (c : ExecutionContext Raw)
      → IsCoherent d laws c
      → IsCoherent d laws (set_tensor_address d n a c).1
  unfolding set_tensor_address
  set_tensor_address-IsCoherent n a c coherent = elim (Result-cases (tensor_name n)) [
    | inl (m, e) ↦
        rw (e, set_tensor_address)
          (λ pairs h k shape e'. address_keeps c.raw m k a ∙ coherent pairs h k shape e')
    | inr (bad, e) ↦ rw (e, set_tensor_address) coherent
  ]

  reset-IsCoherent :
      (ts : List TensorInfo) (c : ExecutionContext Raw)
      → (reset d ts c).0 ≡ ok tt
      → IsCoherent d laws c
      → IsCoherent d laws (reset d ts c).1
  unfolding for_each
  reset-IsCoherent [] c h coherent = coherent
  reset-IsCoherent (t ∷ ts) c h coherent =
      let (done, same, rest) = >>-ok (set_tensor_address d t.name 0) (reset d ts) c h in
      subst (λ r. IsCoherent d laws r.1) (sym same)
        (reset-IsCoherent ts (set_tensor_address d t.name 0 c).1 rest
          (set_tensor_address-IsCoherent t.name 0 c coherent))

-- When the addresses of a context are reset with success, each tensor of the engine is at null, and
-- if the input shapes that it remembers were in effect, they still are.
pub clear_tensor_addresses-IsCoherent :
    {Raw Gpu : Type 0} (d : Driver Raw Gpu) (laws : AddressLaws d) (shape_laws : ShapeLaws d)
    (io : IoTensors) (c : ExecutionContext Raw)
    → (clear_tensor_addresses d io c).0 ≡ ok tt
    → IsCoherent d shape_laws c
    → let c' = (clear_tensor_addresses d io c).1 in
      All (λ t. AddressLaws.address laws c'.raw t.name ≡ 0) io.io_tensors
      × IsCoherent d shape_laws c'
unfolding clear_tensor_addresses
clear_tensor_addresses-IsCoherent d laws shape_laws io c h coherent =
    (reset-null d laws io.io_tensors c h, reset-IsCoherent d shape_laws io.io_tensors c h coherent)

-- ===== src/Session/ShapeCheck.antt =====
-- What `validate_tensor_shape` accepts.
use tensorrt_rs.Prelude.{
  ℕ, suc, ◌≡◌, refl, ◌↔◌, ◌⊎◌, String, true, false, List, [], ◌∷◌, ℤ, ok, AllPairs, length,
  is_negative, any, arith, int_eq, nat_eq, AllPairs-length,
}
use tensorrt_rs.Tensor.{Dims, TensorInfo}
use tensorrt_rs.Tensor.SizeLaws.{IsConcrete}
use tensorrt_rs.Session.State.{IoTensors}
use tensorrt_rs.Session.Lookup.{tensor_info}
use tensorrt_rs.Session.Validate.{check_axes, validate_tensor_shape}

-- A requested dimension fits an engine dimension that is dynamic, or the same.
abbrev pub Fits : ℤ → ℤ → Type 0
Fits e d = (is_negative e ≡ true) ⊎ (e ≡ d)

-- A shape that may be bound where the engine declares another: of the same rank, equal on each
-- static axis, and concrete.
abbrev pub Accepts : Dims → Dims → Type 0
Accepts engine s = AllPairs Fits engine.values s.values × IsConcrete s.values

module _ (tensor : String) where
  check_axes-ok :
      (axis : ℕ) (es ds : List ℤ)
      → length es ≡ length ds
      → check_axes tensor axis es ds ≡ ok tt
      → AllPairs Fits es ds
  unfolding check_axes
  check_axes-ok axis [] [] l h = tt
  check_axes-ok axis [] (d ∷ ds) l h = absurd (omega arith)
  check_axes-ok axis (e ∷ es) [] l h = absurd (omega arith)
  check_axes-ok axis (e ∷ es) (d ∷ ds) l h = ground (arith, check_axes-ok (suc axis) es ds)

  check_axes_total :
      (axis : ℕ) (es ds : List ℤ) → AllPairs Fits es ds → check_axes tensor axis es ds ≡ ok tt
  unfolding check_axes
  check_axes_total axis [] ds h = refl
  check_axes_total axis (e ∷ es) [] h = absurd h
  check_axes_total axis (e ∷ es) (d ∷ ds) h = ground (arith, check_axes_total (suc axis) es ds)

IsConcrete-iff : (ds : List ℤ) → (any is_negative ds ≡ false) ↔ IsConcrete ds
IsConcrete-iff [] = (λ _. tt, λ _. refl)
IsConcrete-iff (d ∷ ds) =
    (λ h. ground (arith, IsConcrete-iff ds), λ h. ground (arith, IsConcrete-iff ds))

-- For a tensor of the engine, a shape passes exactly if it has the rank of the tensor's, equals
-- it on each static axis, and is concrete.
pub validate_tensor_shape_iff :
    (io : IoTensors) (tensor : String) (shape : Dims) {info : TensorInfo}
    → tensor_info io tensor ≡ ok info
    → (validate_tensor_shape io tensor shape ≡ ok tt) ↔ Accepts info.shape shape
unfolding validate_tensor_shape
validate_tensor_shape_iff io tensor shape {info = info} e = (
  λ h.
      ground
        (arith, check_axes-ok tensor 0 info.shape.values shape.values, IsConcrete-iff shape.values),
  λ a. ground (
    arith,
    check_axes_total tensor 0 info.shape.values shape.values,
    AllPairs-length Fits info.shape.values shape.values,
    IsConcrete-iff shape.values,
  ),
)

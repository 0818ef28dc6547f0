-- ===== src/Engine/Context.antt =====
-- tensorrt/src/engine.rs: `ExecutionContext`.
use Prim.Native.Char.{code}
use tensorrt_rs.Prelude.{
  ℕ, String, Bool, true, false, ◌&&◌, ◌||◌, List, [], ◌∷◌, map, Option, none, some, Result, ok, err,
  ◌==◌, nat_eq, string_eq, if◌then◌else◌, ◌>>=◌,
}
use tensorrt_rs.Prelude.Exec.{Exec}
use tensorrt_rs.Errors.{Error, invalid_tensor_name, from_status}
use tensorrt_rs.Tensor.{Dims, dims_eq, TensorShape, DeviceInputTensor}
use tensorrt_rs.Tensor.Ffi.{to_ffi, from_ffi}
use tensorrt_rs.Engine.Native.{Driver}

has_nul : String → Bool
has_nul String.[] = false
has_nul (String.◌∷◌ c s) = code c == 0 || has_nul s

unfoldable pub tensor_name : String → Result Error String
unfolding has_nul
tensor_name name = if has_nul name then err (invalid_tensor_name name) else ok name

pub record ExecutionContext (Raw : Type 0) : Type 0 where
  pub raw : Raw
  pub input_shapes : Option (List (String × Dims))

-- `cached.len() == inputs.len()` and the pairs agree.
unfoldable pub pairs_match : List (String × Dims) → List (String × Dims) → Bool
pairs_match [] [] = true
pairs_match [] (y ∷ ys) = false
pairs_match (x ∷ xs) [] = false
pairs_match ((n, s) ∷ xs) ((n', s') ∷ ys) = (n == n' && s == s') && pairs_match xs ys

unfoldable pub shape_pair : TensorShape → String × Dims
shape_pair input = (input.name, input.shape)

unfoldable pub device_shape_pair : DeviceInputTensor → String × Dims
device_shape_pair input = (input.name, input.shape)

module _ {Raw : Type 0} where
  unfoldable pub input_shapes_match : ExecutionContext Raw → List TensorShape → Bool
  unfolding pairs_match shape_pair
  input_shapes_match c inputs = elim c.input_shapes [
    | none ↦ false
    | some cached ↦ pairs_match cached (map shape_pair inputs)
  ]

  unfoldable pub device_input_shapes_match : ExecutionContext Raw → List DeviceInputTensor → Bool
  unfolding pairs_match device_shape_pair
  device_input_shapes_match c inputs = elim c.input_shapes [
    | none ↦ false
    | some cached ↦ pairs_match cached (map device_shape_pair inputs)
  ]

  unfoldable pub remember_input_shapes :
      List TensorShape → ExecutionContext Raw → ExecutionContext Raw
  unfolding shape_pair
  remember_input_shapes inputs c = record c { input_shapes = some (map shape_pair inputs) }

  unfoldable pub remember_device_input_shapes :
      List DeviceInputTensor → ExecutionContext Raw → ExecutionContext Raw
  unfolding device_shape_pair
  remember_device_input_shapes inputs c = record c {
    input_shapes = some (map device_shape_pair inputs);
  }

module _ {Raw Gpu : Type 0} (d : Driver Raw Gpu) where
  unfoldable pub set_input_shape : String → Dims → Exec (ExecutionContext Raw) Error (Unit {0})
  unfolding tensor_name from_status to_ffi
  set_input_shape name dims c = elim (tensor_name name) [
    | err e ↦ (err e, c)
    | ok n ↦
        let (status, raw) = d.set_input_shape c.raw n (to_ffi dims) in
        (from_status status, record c { raw = raw })
  ]

  unfoldable pub tensor_shape : ExecutionContext Raw → String → Result Error Dims
  unfolding tensor_name from_status from_ffi
  tensor_shape c name = do
    n ← tensor_name name
    let (status, dims) = d.tensor_shape c.raw n
    _ ← from_status status
    from_ffi dims

  unfoldable pub set_tensor_address : String → ℕ → Exec (ExecutionContext Raw) Error (Unit {0})
  unfolding tensor_name from_status
  set_tensor_address name address c = elim (tensor_name name) [
    | err e ↦ (err e, c)
    | ok n ↦
        let (status, raw) = d.set_tensor_address c.raw n address in
        (from_status status, record c { raw = raw })
  ]

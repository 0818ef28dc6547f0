-- ===== src/Engine/Laws.antt =====
-- What is assumed of TensorRT's execution contexts, as its documentation gives it.
use tensorrt_rs.Prelude.{ℕ, String, Option, some, ◌≡◌, ◌≢◌}
use tensorrt_rs.Errors.{okay}
use tensorrt_rs.Tensor.Ffi.{FfiDims}
use tensorrt_rs.Engine.Native.{Driver}

-- `setInputShape` puts a shape in effect until it is set again, for that tensor alone, and the calls
-- that bind memory or enqueue work leave the shapes alone. `input_shape` is the shape in effect.
pub record ShapeLaws {Raw Gpu : Type 0} (d : Driver Raw Gpu) : Type 0 where
  pub input_shape : Raw → String → Option FfiDims
  pub set_same :
      (r : Raw) (n : String) (s : FfiDims)
      → (d.set_input_shape r n s).0 ≡ okay
      → input_shape (d.set_input_shape r n s).1 n ≡ some s
  pub set_other :
      (r : Raw) (n m : String) (s : FfiDims)
      → n ≢ m
      → input_shape (d.set_input_shape r n s).1 m ≡ input_shape r m
  pub address_keeps :
      (r : Raw) (n m : String) (a : ℕ)
      → input_shape (d.set_tensor_address r n a).1 m ≡ input_shape r m
  pub enqueue_keeps :
      (r : Raw) (s : ℕ) (g : Gpu) (m : String)
      → input_shape (d.enqueue_v3 r s g).1 m ≡ input_shape r m

-- `setTensorAddress` puts an address in effect for that tensor alone. `address` is the one in effect,
-- which `getTensorAddress` gives, and null where none was set.
pub record AddressLaws {Raw Gpu : Type 0} (d : Driver Raw Gpu) : Type 0 where
  pub address : Raw → String → ℕ
  pub bind_same :
      (r : Raw) (n : String) (a : ℕ)
      → (d.set_tensor_address r n a).0 ≡ okay
      → address (d.set_tensor_address r n a).1 n ≡ a
  pub bind_other :
      (r : Raw) (n m : String) (a : ℕ)
      → n ≢ m
      → address (d.set_tensor_address r n a).1 m ≡ address r m
  pub not_set : (g : Gpu) (r : Raw) (n : String) → (d.create_context g).1 ≡ some r → address r n ≡ 0

-- ===== src/Engine/Native.antt =====
-- The native libraries that the crate calls: the C shim over TensorRT (tensorrt-sys), the CUDA
-- runtime, and the allocator behind `Vec::try_reserve`. Their states are the types `Raw`, of one
-- TensorRT execution context, and `Gpu`, of everything else; a context is owned by one Rust value,
-- so its state is passed along with that value. An address is a number, null at 0.
use tensorrt_rs.Prelude.{ℕ, String, Bool, Option, ℤ}
use tensorrt_rs.Errors.{Status}
use tensorrt_rs.Tensor.Ffi.{FfiDims}

pub record Driver (Raw Gpu : Type 0) : Type 0 where
  pub create_context : Gpu → Status × Option Raw × Gpu
  pub set_input_shape : Raw → String → FfiDims → Status × Raw
  pub tensor_shape : Raw → String → Status × FfiDims
  pub set_tensor_address : Raw → String → ℕ → Status × Raw
  pub enqueue_v3 : Raw → (stream : ℕ) → Gpu → Status × Raw × Gpu
  pub malloc : (bytes : ℕ) → Gpu → ℤ × ℕ × Gpu
  pub free : (ptr : ℕ) → Gpu → Gpu
  pub memcpy : (dst src len : ℕ) → (stream : ℕ) → Gpu → ℤ × Gpu
  pub stream_synchronize : (stream : ℕ) → Gpu → ℤ × Gpu
  pub get_device : Gpu → ℤ × ℤ × Gpu
  pub set_device : (device : ℤ) → Gpu → ℤ × Gpu
  pub event_create : Gpu → ℤ × ℕ × Gpu
  pub event_record : (event stream : ℕ) → Gpu → ℤ × Gpu
  pub event_query : (event : ℕ) → Gpu → ℤ × Gpu
  pub begin_capture : (stream : ℕ) → Gpu → ℤ × Gpu
  pub end_capture : (stream : ℕ) → Gpu → ℤ × ℕ × Gpu
  pub graph_instantiate : (graph : ℕ) → Gpu → ℤ × ℕ × Gpu
  pub graph_launch : (exec stream : ℕ) → Gpu → ℤ × Gpu
  pub try_reserve : Gpu → Bool × Gpu

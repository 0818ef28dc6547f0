-- ===== src/Engine.antt =====
-- tensorrt/src/engine.rs and tensorrt/src/cuda.rs: execution contexts over the native libraries.
mod Native
mod Context
mod Cuda
pub mod ShapeCache
pub mod Laws
unfoldable pub use Native.*
unfoldable pub use Context.*
unfoldable pub use Cuda.*

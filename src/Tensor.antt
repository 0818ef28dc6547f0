-- ===== src/Tensor.antt =====
-- tensorrt/src/tensor.rs: shapes, named bindings and byte sizes.
mod Defs
mod Size
pub mod SizeLaws
pub mod Ffi
unfoldable pub use Defs.*
unfoldable pub use Size.*

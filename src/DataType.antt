-- ===== src/DataType.antt =====
-- tensorrt/src/data_type.rs. An `f32` is its bit pattern (`to_bits`, `from_bits`), a number below
-- 2^32; an `i32` is an integer.
mod Defs
pub mod Binding
pub mod Bf16
unfoldable pub use Defs.*

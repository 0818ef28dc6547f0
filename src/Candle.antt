-- ===== src/Candle.antt =====
-- tensorrt/src/candle.rs: the memory ranges of CUDA tensors, and the checks against aliasing.
mod Aliases
pub mod Disjoint
unfoldable pub use Aliases.*

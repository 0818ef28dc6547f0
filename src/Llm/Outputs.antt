-- ===== src/Llm/Outputs.antt =====
-- tensorrt_llm/src/output.rs: what a response of the executor becomes. Memory that the C++ side
-- hands out is what a pointer holds; an array that is read as bytes is its bytes.
pub mod Values
pub mod ValueLaws
pub mod Lazy
pub mod LazyLaws
pub mod Offsets
pub mod Sys
pub mod Decode
pub mod OffsetLaws
pub mod DecodeLaws
pub mod Asked

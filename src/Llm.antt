-- ===== src/Llm.antt =====
-- tensorrt_llm/src: the crate `tensorrt_llm`, with the parts of its C++ shim
-- (tensorrt_llm-sys/native/tensorrt_llm_executor.cpp) that read and write what crosses the boundary.
pub mod Errors
pub mod DataTypes
pub mod Sampling
pub mod Outputs
pub mod Config
pub mod Requests
pub mod Executor

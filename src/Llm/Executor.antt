-- ===== src/Llm/Executor.antt =====
-- tensorrt_llm/src/executor.rs: requests on their way to the executor, and its responses.
pub mod Validate
pub mod Parts
pub mod Accepted
pub mod Prompt
pub mod Words
pub mod WordLaws
pub mod Sys
pub mod Tensors
pub mod Shapes
pub mod Buffers
pub mod Structure
pub mod Prepare
pub mod Prepared
pub mod Responses
pub mod History

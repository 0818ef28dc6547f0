-- ===== src/Lib.antt =====
-- tensorrt-rs: safe Rust bindings for running TensorRT engines and TensorRT-LLM models.
--
-- The crates modelled are `tensorrt` (tensorrt/src) and `tensorrt_llm` (tensorrt_llm/src), the
-- latter with its C structures (tensorrt_llm-sys/src/lib.rs) and the functions of its C++ shim
-- that read them (tensorrt_llm-sys/native/tensorrt_llm_executor.cpp). TensorRT, CUDA, TensorRT-LLM
-- and Candle are parameters of the model.
--
-- Parts and files:
-- - Prelude: results, calls with state that may fail (Exec), maps, vectors, lists, tests.
-- - DataType: tensorrt/src/data_type.rs. An `f32` is its bit pattern. Bf16 and Binding hold its
--   laws.
-- - Errors: tensorrt/src/error.rs. A reason string is a constructor; `panicked` stands for a
--   panic.
-- - Tensor: tensorrt/src/tensor.rs (`Dims`, the named bindings, `tensor_byte_len`,
--   `element_count`, `HostTensor`). `usize` has 64 bits.
-- - Engine: tensorrt/src/engine.rs (`ExecutionContext`) and tensorrt/src/cuda.rs (streams, events,
--   buffers, graph capture) over the record `Driver` of native calls.
-- - Session: tensorrt/src/session.rs with session/plan.rs and session/select.rs. State holds the
--   fields of `Session`; Lookup the index of tensors; Validate the checks of bindings; Shapes the
--   input shapes and inferred outputs; Pool the pools of contexts and events and the work in
--   flight; Staging, Bind and Run the runs; Plan the output plans; Graph and AutoGraph the CUDA
--   graphs and `enqueue_device_auto_graph`; Select the requested outputs. Its other modules hold
--   laws: ReclaimLoop, Reclaim, CleanContext and PooledContext those of the pools, for one.
-- - Prepared: tensorrt/src/prepared.rs, with `prepare_device` and `prepare_mixed_device`.
-- - Candle: the memory ranges and `validate_cuda_output_aliases` of tensorrt/src/candle.rs.
-- - Llm: the crate `tensorrt_llm`. Errors is error.rs, a message being the constructor of its
--   condition; DataTypes the tables of type identifiers in executor.rs and output.rs; Sampling is
--   sampling.rs with `sampling_config` of the shim; Config is config.rs from the parsed JSON on.
-- - Llm/Requests: request.rs, the data of a request and the values a new one has; Names the
--   outputs it infers, with string.rs.
-- - Llm/Outputs: output.rs. Values are the typed values in bytes, Offsets the offsets of flattened
--   sequences, Lazy `LazyTensor` and its guard, Decode `from_sys` and what a caller asks of an
--   output, Sys the C structures it reads; LazyLaws, OffsetLaws and DecodeLaws compare both ways
--   of decoding, Asked the two ways of reading an output.
-- - Llm/Executor: executor.rs. Validate and Prompt are the checks of a request, Words the lists of
--   words with `word_list` and `nested_tokens` of the shim, Tensors the tensors that are handed
--   over, Buffers the pool of buffers, Structure the structure made for the C side, whose type is
--   in Sys, Prepare `prepare_request`, Responses the run and its final response; Parts, Accepted,
--   WordLaws, Shapes, Prepared and History hold their laws.
-- - Tests: a concrete device, and the theorems applied to concrete runs.
--
-- How they interact: a session takes a context from its pool, sets input shapes through the cache
-- of the context, checks and binds tensors, and enqueues work on a stream. The context then waits
-- in flight behind an event until reclaiming gives it back to the pool. A prepared session owns
-- one context and checks each run against what was prepared. In `tensorrt_llm`, a run checks its
-- request, takes buffers from the pool, fills them, hands the C structure that points into them to
-- the native executor, decodes the first final response, and gives the buffers back.
--
-- State and effects: a call that changes state is a function from the state to a result and a new
-- state, which comes back beside an error too. The native libraries are the record `Driver`, over
-- a state `Raw` of one execution context and a state `Gpu` of everything else; what is assumed of
-- them is in Engine/Laws, and every law has an instance in Tests/Device. Values that own device
-- memory are freed where the source drops them. In Llm, Candle's functions on tensors are the
-- record `Candle` and a function `from_vec`, the native executor is a function from the C
-- structure to what it returns, a pointer is null or points at a value, a C string is its text,
-- the machine is little-endian, and no thread panics with a lock held.
--
-- Bounds and fuel: `reclaim_loop` has as many rounds as there are entries in flight. A round
-- leaves one entry less to look at, so the loop ends by its own condition. Every other loop, and
-- every loop of Llm, is a recursion on a list or on a count. Sizes are numbers whose overflow at
-- 2^64 is checked as in the source.
--
-- Not modelled: the rest of the Candle adapter and the functions of a session that take Candle
-- tensors; `run` and `run_allocating`; loading an engine; texts of messages. Of `tensorrt_llm`:
-- builder.rs; the methods of a request and of its configurations that write one field; reading the
-- model's configuration file; runs into preallocated outputs, that is output sinks, their pools of
-- scratch and events, and the checks of their aliases; the rest of the shim, which calls
-- TensorRT-LLM. The order of a hash table is arbitrary in the source: where it matters, in the
-- eviction of a CUDA graph, a parameter picks the entry.
pub mod Prelude
pub mod DataType
pub mod Errors
pub mod Tensor
pub mod Engine
pub mod Session
pub mod Candle
pub mod Llm
pub mod Prepared
pub mod Tests

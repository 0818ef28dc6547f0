-- ===== src/Llm/Errors.antt =====
-- tensorrt_llm/src/error.rs. A message is the constructor of `Reason` that stands for its text, with
-- the values that are formatted into it.
use tensorrt_rs.Prelude.{ℕ, String, ℤ}
use tensorrt_rs.DataType.{DataType}

pub data Reason : Type 0 where
  -- sampling.rs
  beam_width_not_positive : Reason
  not_finite : (name : String) → Reason
  num_return_sequences_not_positive beam_width_array_not_positive : Reason
  -- config.rs
  missing : (field : String) → Reason
  model_dtype_not_supported : (dtype : String) → Reason
  not_greater_than_zero : (field : String) → Reason
  -- executor.rs
  no_input_tokens max_new_tokens_negative priority_not_finite : Reason
  position_ids_mismatch token_extra_ids_mismatch : (expected actual : ℕ) → Reason
  no_draft_tokens acceptance_threshold_range : Reason
  multimodal_lengths multimodal_uuids : Reason
  lookahead_not_positive : Reason
  retention_priority_range : (name : String) → Reason
  token_start_negative token_end_order : Reason
  no_first_gen_tokens encoder_output_length_not_positive : Reason
  posterior_threshold_range top_k_not_positive language_adapter_negative : Reason
  empty_word : (name : String) → (index : ℕ) → Reason
  token_count_overflow : Reason
  too_many_tokens : (total max : ℕ) → Reason
  prompt_rank : Reason
  prompt_empty : Reason
  prompt_rows : (rows max : ℕ) → Reason
  prompt_hidden : (expected actual : ℕ) → Reason
  not_contiguous : Reason
  prompt_dtype : Reason
  virtual_range_overflow : Reason
  virtual_token : (token first last : ℕ) → Reason
  bias_rank : Reason
  bias_size : (expected actual : ℕ) → Reason
  dimension_overflow : Reason
  dtype_not_supported : DataType → Reason
  tensor_dtype_not_supported : Reason
  dynamic_shape element_count_overflow byte_size_overflow : Reason
  unsupported_dtype : DataType → Reason
  does_not_fit_i32 : (field : String) → ℕ → Reason
  empty_output_name sink_shape_missing : Reason
  sink_only_in_run : Reason
  output_not_written : (name : String) → Reason
  range_overflow : Reason
  outputs_overlap : (name other : String) → Reason
  not_cuda_storage storage_offset_overflow : Reason
  stream_without_device stream_not_cuda wrong_device : Reason
  -- output.rs
  null_result null_data null_shape null_offsets null_name : Reason
  invalid_offsets offset_overflow length_overflow : Reason
  not_divisible : DataType → ℕ → Reason
  shape_overflow : Reason
  count_mismatch : (expected actual : ℕ) → Reason
  dimension_negative : ℤ → Reason
  unknown_dtype_id : ℤ → Reason
  -- the exceptions of the C++ shim
  null_words few_words invalid_words invalid_word : Reason

-- `Io`, `Json`, `TensorRt`, `Candle` and `Nul` wrap the errors of other libraries, and `PluginInit`
-- that of the native one; what they wrap is left out.
pub data Error : Type 0 where
  plugin_init io json tensor_rt candle nul : Error
  invalid_argument : Reason → Error
  executor : (message : String) → Error
  panicked : Error

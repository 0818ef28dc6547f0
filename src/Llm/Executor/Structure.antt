-- ===== src/Llm/Executor/Structure.antt =====
-- executor.rs: the last part of `prepare_request`, the structure that the C side is handed. The
-- configurations become what their flags and fields say; a C string is its text.
use tensorrt_rs.Prelude.{ℕ, ℤ, pos, Bool, true, false, List, [], Option, none, some, length, nat_eq}
use tensorrt_rs.Prelude.Pointers.{Pointer, null, at}
use tensorrt_rs.Llm.Sampling.{flag, int_or_zero, nat_or_zero, as_sys}
use tensorrt_rs.Llm.Config.{ValidationProfile}
use tensorrt_rs.Llm.Requests.{
  Request, ExternalDraftTokensConfig, MultimodalInput, MropeConfig, LoraConfig, LookaheadConfig,
  KvCacheRetentionConfig, ContextPhaseParams, EagleConfig, GuidedDecodingParams,
  request_type_as_i32, transfer_mode_as_i32, guide_type_as_i32,
}
use tensorrt_rs.Llm.Executor.Words.{words_as_sys}
use tensorrt_rs.Llm.Executor.Sys.{
  SysTensorView, SysExternalDraftTokensConfig, SysMultimodalInput, SysMropeConfig, SysLoraConfig,
  SysLookaheadConfig, SysEagleConfig, SysKvCacheRetentionConfig, SysContextPhaseParams,
  SysGuidedDecodingParams, SysRequest, no_tensor_view, no_external_draft_tokens_config,
  no_multimodal_input, no_mrope_config, no_lora_config, no_lookahead_config, no_eagle_config,
  no_kv_cache_retention_config, no_context_phase_params, no_guided_decoding_params,
}
use tensorrt_rs.Llm.Executor.Tensors.{
  TensorBuffer, tensor_memory_cpu, buffer_as_sys, optional_tensor_view,
}
use tensorrt_rs.Llm.Executor.Buffers.{RequestBuffers, names_as_ptr, names_as_sys}

pub record PromptEmbedding : Type 0 where
  pub tensor : TensorBuffer
  pub rows : ℕ
  pub input_token_extra_ids : List ℕ

pub record EmbeddingBiasBuffer : Type 0 where
  pub tensor : TensorBuffer
  pub len : ℕ

pub record RequestTensors : Type 0 where
  pub prompt : Option PromptEmbedding
  pub embedding_bias : Option EmbeddingBiasBuffer
  pub external_draft_logits : Option TensorBuffer
  pub multimodal_embedding : Option TensorBuffer
  pub mrope_rotary_cos_sin : Option TensorBuffer
  pub lora_weights : Option TensorBuffer
  pub lora_config_tensor : Option TensorBuffer
  pub encoder_input_features : Option TensorBuffer
  pub cross_attention_mask : Option TensorBuffer
  pub skip_cross_attn_blocks : Option TensorBuffer

-- `option.as_ref().map_or(std::ptr::null(), |v| v.as_ptr())` and `map_or(0, |v| v.len())`
abbrev pub ptr_or_null : {A : Type 0} → Option A → Pointer A
ptr_or_null none = null
ptr_or_null (some a) = at a

abbrev pub len_or_zero : {A : Type 0} → Option (List A) → ℕ
len_or_zero none = 0
len_or_zero (some xs) = length xs

-- `i32::from(flag)`
abbrev pub bool_as_i32 : Bool → ℤ
bool_as_i32 true = pos 1
bool_as_i32 false = pos 0

abbrev pub bool_or_false : Option Bool → Bool
bool_or_false none = false
bool_or_false (some b) = b

-- `option.map(f).unwrap_or_default()`
abbrev pub map_or : {A B : Type 0} → B → (A → B) → Option A → B
map_or d f none = d
map_or d f (some a) = f a

abbrev pub and_then : {A B : Type 0} → (A → Option B) → Option A → Option B
and_then f none = none
and_then f (some a) = f a

module _ {Tensor : Type 0} where
  abbrev pub draft_as_sys :
      RequestTensors → ExternalDraftTokensConfig Tensor → SysExternalDraftTokensConfig
  draft_as_sys tensors config = record {
    tokens = at config.tokens;
    token_count = length config.tokens;
    logits = optional_tensor_view tensors.external_draft_logits;
    has_acceptance_threshold = flag config.acceptance_threshold;
    acceptance_threshold = nat_or_zero config.acceptance_threshold;
    has_fast_logits = flag config.fast_logits;
    fast_logits = bool_as_i32 (bool_or_false config.fast_logits);
  }

  abbrev pub mrope_as_sys : RequestTensors → MropeConfig Tensor → SysMropeConfig
  mrope_as_sys tensors config = record {
    rotary_cos_sin = optional_tensor_view tensors.mrope_rotary_cos_sin;
    position_deltas = config.position_deltas;
  }

  abbrev pub lora_as_sys : RequestTensors → LoraConfig Tensor → SysLoraConfig
  lora_as_sys tensors config = record {
    task_id = config.task_id;
    weights = optional_tensor_view tensors.lora_weights;
    config = optional_tensor_view tensors.lora_config_tensor;
  }

abbrev pub multimodal_as_sys : RequestBuffers → MultimodalInput → SysMultimodalInput
multimodal_as_sys buffers input = record {
  hashes = words_as_sys buffers.multimodal_hashes;
  positions = at input.positions;
  position_count = length input.positions;
  lengths = at input.lengths;
  length_count = length input.lengths;
  uuids = names_as_ptr buffers.multimodal_uuids;
  uuid_count = length buffers.multimodal_uuids;
}

abbrev pub lookahead_as_sys : LookaheadConfig → SysLookaheadConfig
lookahead_as_sys config = record {
  window_size = config.window_size;
  ngram_size = config.ngram_size;
  verification_set_size = config.verification_set_size;
}

abbrev pub retention_as_sys : RequestBuffers → KvCacheRetentionConfig → SysKvCacheRetentionConfig
retention_as_sys buffers config = record {
  ranges = at buffers.kv_cache_retention_ranges;
  range_count = length buffers.kv_cache_retention_ranges;
  decode_retention_priority = config.decode_retention_priority;
  has_decode_duration_ms = flag config.decode_duration_ms;
  decode_duration_ms = nat_or_zero config.decode_duration_ms;
  transfer_mode = transfer_mode_as_i32 config.transfer_mode;
  directory = ptr_or_null config.directory;
}

abbrev pub context_phase_as_sys : ContextPhaseParams → SysContextPhaseParams
context_phase_as_sys params = record {
  first_gen_tokens = at params.first_gen_tokens;
  first_gen_token_count = length params.first_gen_tokens;
  request_id = params.request_id;
  serialized_state = ptr_or_null params.serialized_state;
  serialized_state_len = len_or_zero params.serialized_state;
  draft_tokens = ptr_or_null params.draft_tokens;
  draft_token_count = len_or_zero params.draft_tokens;
  has_ctx_dp_rank = flag params.ctx_dp_rank;
  ctx_dp_rank = int_or_zero params.ctx_dp_rank;
  disagg_info_endpoint = ptr_or_null params.disagg_info_endpoint;
}

abbrev pub eagle_as_sys : RequestBuffers → EagleConfig → SysEagleConfig
eagle_as_sys buffers config = record {
  choices = words_as_sys buffers.eagle_choices;
  greedy_sampling = bool_as_i32 config.greedy_sampling;
  has_posterior_threshold = flag config.posterior_threshold;
  posterior_threshold = nat_or_zero config.posterior_threshold;
  use_dynamic_tree = bool_as_i32 config.use_dynamic_tree;
  has_dynamic_tree_max_top_k = flag config.dynamic_tree_max_top_k;
  dynamic_tree_max_top_k = int_or_zero config.dynamic_tree_max_top_k;
}

abbrev pub guided_as_sys : GuidedDecodingParams → SysGuidedDecodingParams
guided_as_sys params = record {
  guide_type = guide_type_as_i32 params.guide_type;
  guide = ptr_or_null params.guide;
}

-- The view of the prompt's tensor, or what stands for none.
abbrev pub prompt_view : ValidationProfile → Option PromptEmbedding → SysTensorView
prompt_view profile none = record no_tensor_view {
  data_type = profile.executor_data_type;
  memory_type = tensor_memory_cpu;
}
prompt_view profile (some prompt) = buffer_as_sys prompt.tensor

abbrev pub bias_view : ValidationProfile → Option EmbeddingBiasBuffer → SysTensorView
bias_view profile none = record no_tensor_view {
  data_type = profile.executor_data_type;
  memory_type = tensor_memory_cpu;
}
bias_view profile (some bias) = buffer_as_sys bias.tensor

module _ {Tensor : Type 0} where
  unfoldable pub request_as_sys :
      ValidationProfile → Request Tensor → RequestTensors → RequestBuffers → SysRequest
  unfolding as_sys words_as_sys names_as_sys names_as_ptr optional_tensor_view buffer_as_sys
      request_type_as_i32 transfer_mode_as_i32 guide_type_as_i32
  request_as_sys profile request tensors buffers =
      let prompt = prompt_view profile tensors.prompt in
      let bias = bias_view profile tensors.embedding_bias in
      let extra_ids = map_or [] (λ prompt. prompt.input_token_extra_ids) tensors.prompt in
      record {
        input_ids = at request.input_ids;
        input_len = length request.input_ids;
        max_new_tokens = request.max_new_tokens;
        streaming = pos 0;
        has_end_id = flag request.end_id;
        end_id = int_or_zero request.end_id;
        has_pad_id = flag request.pad_id;
        pad_id = int_or_zero request.pad_id;
        sampling = as_sys request.sampling;
        prompt_embedding_data = prompt.contents;
        prompt_embedding_byte_len = prompt.byte_len;
        prompt_embedding_rows = map_or 0 (λ prompt. prompt.rows) tensors.prompt;
        prompt_embedding_hidden_size = map_or 0 (λ prompt. profile.hidden_size) tensors.prompt;
        prompt_embedding_data_type = prompt.data_type;
        prompt_embedding_memory_type = prompt.memory_type;
        input_token_extra_ids = at extra_ids;
        input_token_extra_ids_len = length extra_ids;
        position_ids = ptr_or_null request.position_ids;
        position_ids_len = len_or_zero request.position_ids;
        bad_words = words_as_sys buffers.bad_words;
        stop_words = words_as_sys buffers.stop_words;
        embedding_bias_data = bias.contents;
        embedding_bias_byte_len = bias.byte_len;
        embedding_bias_len = map_or 0 (λ bias. bias.len) tensors.embedding_bias;
        embedding_bias_data_type = bias.data_type;
        embedding_bias_memory_type = bias.memory_type;
        has_external_draft_tokens_config = flag request.external_draft_tokens_config;
        external_draft_tokens_config =
            map_or no_external_draft_tokens_config (draft_as_sys tensors)
              request.external_draft_tokens_config;
        has_multimodal_input = flag request.multimodal_input;
        multimodal_input =
            map_or no_multimodal_input (multimodal_as_sys buffers) request.multimodal_input;
        multimodal_embedding = optional_tensor_view tensors.multimodal_embedding;
        has_mrope_config = flag request.mrope_config;
        mrope_config = map_or no_mrope_config (mrope_as_sys tensors) request.mrope_config;
        has_lora_config = flag request.lora_config;
        lora_config = map_or no_lora_config (lora_as_sys tensors) request.lora_config;
        has_lookahead_config = flag request.lookahead_config;
        lookahead_config = map_or no_lookahead_config lookahead_as_sys request.lookahead_config;
        has_kv_cache_retention_config = flag request.kv_cache_retention_config;
        kv_cache_retention_config =
            map_or no_kv_cache_retention_config (retention_as_sys buffers)
              request.kv_cache_retention_config;
        logits_post_processor_name = ptr_or_null request.logits_post_processor_name;
        encoder_input_token_ids = ptr_or_null request.encoder_input_token_ids;
        encoder_input_token_count = len_or_zero request.encoder_input_token_ids;
        additional_outputs = names_as_sys buffers.additional_outputs;
        return_log_probs = bool_as_i32 request.return_log_probs;
        return_context_logits = bool_as_i32 request.return_context_logits;
        return_generation_logits = bool_as_i32 request.return_generation_logits;
        exclude_input_from_output = bool_as_i32 request.exclude_input_from_output;
        return_encoder_output = bool_as_i32 request.return_encoder_output;
        return_all_generated_tokens = bool_as_i32 request.return_all_generated_tokens;
        has_client_id = flag request.client_id;
        client_id = nat_or_zero request.client_id;
        has_priority = flag request.priority;
        priority = nat_or_zero request.priority;
        request_type = request_type_as_i32 request.request_type;
        has_context_phase_params = flag request.context_phase_params;
        context_phase_params =
            map_or no_context_phase_params context_phase_as_sys request.context_phase_params;
        encoder_input_features = optional_tensor_view tensors.encoder_input_features;
        has_encoder_output_length = flag request.encoder_output_length;
        encoder_output_length = int_or_zero request.encoder_output_length;
        cross_attention_mask = optional_tensor_view tensors.cross_attention_mask;
        has_eagle_config = flag request.eagle_config;
        eagle_config = map_or no_eagle_config (eagle_as_sys buffers) request.eagle_config;
        skip_cross_attn_blocks = optional_tensor_view tensors.skip_cross_attn_blocks;
        has_guided_decoding_params = flag request.guided_decoding_params;
        guided_decoding_params =
            map_or no_guided_decoding_params guided_as_sys request.guided_decoding_params;
        has_language_adapter_uid = flag request.language_adapter_uid;
        language_adapter_uid = int_or_zero request.language_adapter_uid;
        has_allotted_time_ms = flag request.allotted_time_ms;
        allotted_time_ms = nat_or_zero request.allotted_time_ms;
        has_cache_salt_id = flag request.cache_salt_id;
        cache_salt_id = nat_or_zero request.cache_salt_id;
        has_disagg_request_id = flag request.disagg_request_id;
        disagg_request_id = nat_or_zero request.disagg_request_id;
      }

-- ===== src/Llm/Executor/Sys.antt =====
-- tensorrt_llm-sys/src/lib.rs: the C structures of a request. What `Default` gives has null pointers
-- and zeros.
use tensorrt_rs.Prelude.{ℕ, ℤ, pos, String, List}
use tensorrt_rs.Prelude.Pointers.{Pointer, null}
use tensorrt_rs.Llm.Sampling.{SysSamplingConfig}
use tensorrt_rs.Llm.Executor.Words.{WordList}

-- What a tensor's pointer leads to: bytes of the host, or an address of the device.
pub data Memory : Type 0 where
  host : List ℕ → Memory
  gpu : ℕ → Memory

pub record StringList : Type 0 where
  pub names : Pointer (List (Pointer String))
  pub count : ℕ

abbrev pub no_words : WordList
no_words = record { tokens = null; token_count = 0; offsets = null; offset_count = 0 }

abbrev pub no_names : StringList
no_names = record { names = null; count = 0 }

pub record SysTensorView : Type 0 where
  pub contents : Pointer Memory
  pub byte_len : ℕ
  pub data_type : ℤ
  pub shape : Pointer (List ℤ)
  pub rank : ℕ
  pub memory_type : ℤ

abbrev pub no_tensor_view : SysTensorView
no_tensor_view = record {
  contents = null;
  byte_len = 0;
  data_type = pos 0;
  shape = null;
  rank = 0;
  memory_type = pos 0;
}

pub record SysExternalDraftTokensConfig : Type 0 where
  pub tokens : Pointer (List ℤ)
  pub token_count : ℕ
  pub logits : SysTensorView
  pub has_acceptance_threshold : ℤ
  pub acceptance_threshold : ℕ
  pub has_fast_logits : ℤ
  pub fast_logits : ℤ

abbrev pub no_external_draft_tokens_config : SysExternalDraftTokensConfig
no_external_draft_tokens_config = record {
  tokens = null;
  token_count = 0;
  logits = no_tensor_view;
  has_acceptance_threshold = pos 0;
  acceptance_threshold = 0;
  has_fast_logits = pos 0;
  fast_logits = pos 0;
}

pub record SysMultimodalInput : Type 0 where
  pub hashes : WordList
  pub positions : Pointer (List ℤ)
  pub position_count : ℕ
  pub lengths : Pointer (List ℤ)
  pub length_count : ℕ
  pub uuids : Pointer (List (Pointer String))
  pub uuid_count : ℕ

abbrev pub no_multimodal_input : SysMultimodalInput
no_multimodal_input = record {
  hashes = no_words;
  positions = null;
  position_count = 0;
  lengths = null;
  length_count = 0;
  uuids = null;
  uuid_count = 0;
}

pub record SysMropeConfig : Type 0 where
  pub rotary_cos_sin : SysTensorView
  pub position_deltas : ℤ

abbrev pub no_mrope_config : SysMropeConfig
no_mrope_config = record { rotary_cos_sin = no_tensor_view; position_deltas = pos 0 }

pub record SysLoraConfig : Type 0 where
  pub task_id : ℕ
  pub weights : SysTensorView
  pub config : SysTensorView

abbrev pub no_lora_config : SysLoraConfig
no_lora_config = record { task_id = 0; weights = no_tensor_view; config = no_tensor_view }

pub record SysLookaheadConfig : Type 0 where
  pub window_size : ℤ
  pub ngram_size : ℤ
  pub verification_set_size : ℤ

abbrev pub no_lookahead_config : SysLookaheadConfig
no_lookahead_config = record {
  window_size = pos 0;
  ngram_size = pos 0;
  verification_set_size = pos 0;
}

pub record SysEagleConfig : Type 0 where
  pub choices : WordList
  pub greedy_sampling : ℤ
  pub has_posterior_threshold : ℤ
  pub posterior_threshold : ℕ
  pub use_dynamic_tree : ℤ
  pub has_dynamic_tree_max_top_k : ℤ
  pub dynamic_tree_max_top_k : ℤ

abbrev pub no_eagle_config : SysEagleConfig
no_eagle_config = record {
  choices = no_words;
  greedy_sampling = pos 0;
  has_posterior_threshold = pos 0;
  posterior_threshold = 0;
  use_dynamic_tree = pos 0;
  has_dynamic_tree_max_top_k = pos 0;
  dynamic_tree_max_top_k = pos 0;
}

pub record SysKvCacheTokenRangeRetentionConfig : Type 0 where
  pub token_start : ℤ
  pub has_token_end : ℤ
  pub token_end : ℤ
  pub priority : ℤ
  pub has_duration_ms : ℤ
  pub duration_ms : ℕ

pub record SysKvCacheRetentionConfig : Type 0 where
  pub ranges : Pointer (List SysKvCacheTokenRangeRetentionConfig)
  pub range_count : ℕ
  pub decode_retention_priority : ℤ
  pub has_decode_duration_ms : ℤ
  pub decode_duration_ms : ℕ
  pub transfer_mode : ℤ
  pub directory : Pointer String

abbrev pub no_kv_cache_retention_config : SysKvCacheRetentionConfig
no_kv_cache_retention_config = record {
  ranges = null;
  range_count = 0;
  decode_retention_priority = pos 0;
  has_decode_duration_ms = pos 0;
  decode_duration_ms = 0;
  transfer_mode = pos 0;
  directory = null;
}

pub record SysContextPhaseParams : Type 0 where
  pub first_gen_tokens : Pointer (List ℤ)
  pub first_gen_token_count : ℕ
  pub request_id : ℕ
  pub serialized_state : Pointer (List ℕ)
  pub serialized_state_len : ℕ
  pub draft_tokens : Pointer (List ℤ)
  pub draft_token_count : ℕ
  pub has_ctx_dp_rank : ℤ
  pub ctx_dp_rank : ℤ
  pub disagg_info_endpoint : Pointer String

abbrev pub no_context_phase_params : SysContextPhaseParams
no_context_phase_params = record {
  first_gen_tokens = null;
  first_gen_token_count = 0;
  request_id = 0;
  serialized_state = null;
  serialized_state_len = 0;
  draft_tokens = null;
  draft_token_count = 0;
  has_ctx_dp_rank = pos 0;
  ctx_dp_rank = pos 0;
  disagg_info_endpoint = null;
}

pub record SysGuidedDecodingParams : Type 0 where
  pub guide_type : ℤ
  pub guide : Pointer String

abbrev pub no_guided_decoding_params : SysGuidedDecodingParams
no_guided_decoding_params = record { guide_type = pos 0; guide = null }

pub record SysRequest : Type 0 where
  pub input_ids : Pointer (List ℤ)
  pub input_len : ℕ
  pub max_new_tokens : ℤ
  pub streaming : ℤ
  pub has_end_id : ℤ
  pub end_id : ℤ
  pub has_pad_id : ℤ
  pub pad_id : ℤ
  pub sampling : SysSamplingConfig
  pub prompt_embedding_data : Pointer Memory
  pub prompt_embedding_byte_len : ℕ
  pub prompt_embedding_rows : ℕ
  pub prompt_embedding_hidden_size : ℕ
  pub prompt_embedding_data_type : ℤ
  pub prompt_embedding_memory_type : ℤ
  pub input_token_extra_ids : Pointer (List ℕ)
  pub input_token_extra_ids_len : ℕ
  pub position_ids : Pointer (List ℤ)
  pub position_ids_len : ℕ
  pub bad_words : WordList
  pub stop_words : WordList
  pub embedding_bias_data : Pointer Memory
  pub embedding_bias_byte_len : ℕ
  pub embedding_bias_len : ℕ
  pub embedding_bias_data_type : ℤ
  pub embedding_bias_memory_type : ℤ
  pub has_external_draft_tokens_config : ℤ
  pub external_draft_tokens_config : SysExternalDraftTokensConfig
  pub has_multimodal_input : ℤ
  pub multimodal_input : SysMultimodalInput
  pub multimodal_embedding : SysTensorView
  pub has_mrope_config : ℤ
  pub mrope_config : SysMropeConfig
  pub has_lora_config : ℤ
  pub lora_config : SysLoraConfig
  pub has_lookahead_config : ℤ
  pub lookahead_config : SysLookaheadConfig
  pub has_kv_cache_retention_config : ℤ
  pub kv_cache_retention_config : SysKvCacheRetentionConfig
  pub logits_post_processor_name : Pointer String
  pub encoder_input_token_ids : Pointer (List ℤ)
  pub encoder_input_token_count : ℕ
  pub additional_outputs : StringList
  pub return_log_probs : ℤ
  pub return_context_logits : ℤ
  pub return_generation_logits : ℤ
  pub exclude_input_from_output : ℤ
  pub return_encoder_output : ℤ
  pub return_all_generated_tokens : ℤ
  pub has_client_id : ℤ
  pub client_id : ℕ
  pub has_priority : ℤ
  pub priority : ℕ
  pub request_type : ℤ
  pub has_context_phase_params : ℤ
  pub context_phase_params : SysContextPhaseParams
  pub encoder_input_features : SysTensorView
  pub has_encoder_output_length : ℤ
  pub encoder_output_length : ℤ
  pub cross_attention_mask : SysTensorView
  pub has_eagle_config : ℤ
  pub eagle_config : SysEagleConfig
  pub skip_cross_attn_blocks : SysTensorView
  pub has_guided_decoding_params : ℤ
  pub guided_decoding_params : SysGuidedDecodingParams
  pub has_language_adapter_uid : ℤ
  pub language_adapter_uid : ℤ
  pub has_allotted_time_ms : ℤ
  pub allotted_time_ms : ℕ
  pub has_cache_salt_id : ℤ
  pub cache_salt_id : ℕ
  pub has_disagg_request_id : ℤ
  pub disagg_request_id : ℕ

-- ===== src/Llm/Requests.antt =====
-- tensorrt_llm/src/request.rs: a request and the configurations it may carry. A tensor is one of
-- Candle's; an `f32` is its bit pattern; a C string is its text. The sink of preallocated outputs
-- (`additional_output_sink`) is not part of it here.
pub mod Names
use tensorrt_rs.Prelude.{ℕ, ℤ, pos, String, Bool, true, false, List, [], Option, none, some}
use tensorrt_rs.Llm.Sampling.{SamplingConfig, default_sampling}

pub data RequestType : Type 0 where
  context_and_generation context_only generation_only : RequestType

unfoldable pub request_type_as_i32 : RequestType → ℤ
request_type_as_i32 context_and_generation = pos 0
request_type_as_i32 context_only = pos 1
request_type_as_i32 generation_only = pos 2

pub record ExternalDraftTokensConfig (Tensor : Type 0) : Type 0 where
  pub tokens : List ℤ
  pub logits : Option Tensor
  pub acceptance_threshold : Option ℕ
  pub fast_logits : Option Bool

pub record MultimodalInput : Type 0 where
  pub hashes : List (List ℤ)
  pub positions : List ℤ
  pub lengths : List ℤ
  pub uuids : List (Option String)

pub record MropeConfig (Tensor : Type 0) : Type 0 where
  pub rotary_cos_sin : Tensor
  pub position_deltas : ℤ

pub record LoraConfig (Tensor : Type 0) : Type 0 where
  pub task_id : ℕ
  pub weights : Option Tensor
  pub config : Option Tensor

pub record LookaheadConfig : Type 0 where
  pub window_size : ℤ
  pub ngram_size : ℤ
  pub verification_set_size : ℤ

pub data KvCacheTransferMode : Type 0 where
  dram gds posix_debug_fallback : KvCacheTransferMode

unfoldable pub transfer_mode_as_i32 : KvCacheTransferMode → ℤ
transfer_mode_as_i32 dram = pos 0
transfer_mode_as_i32 gds = pos 1
transfer_mode_as_i32 posix_debug_fallback = pos 2

pub record KvCacheTokenRangeRetentionConfig : Type 0 where
  pub token_start : ℤ
  pub token_end : Option ℤ
  pub priority : ℤ
  pub duration_ms : Option ℕ

pub record KvCacheRetentionConfig : Type 0 where
  pub ranges : List KvCacheTokenRangeRetentionConfig
  pub decode_retention_priority : ℤ
  pub decode_duration_ms : Option ℕ
  pub transfer_mode : KvCacheTransferMode
  pub directory : Option String

abbrev pub default_retention_priority : ℤ
default_retention_priority = pos 35

unfoldable pub new_range_retention : ℤ → KvCacheTokenRangeRetentionConfig
new_range_retention token_start = record {
  token_start = token_start;
  token_end = none;
  priority = default_retention_priority;
  duration_ms = none;
}

unfoldable pub new_retention : List KvCacheTokenRangeRetentionConfig → KvCacheRetentionConfig
new_retention ranges = record {
  ranges = ranges;
  decode_retention_priority = default_retention_priority;
  decode_duration_ms = none;
  transfer_mode = dram;
  directory = none;
}

pub record ContextPhaseParams : Type 0 where
  pub first_gen_tokens : List ℤ
  pub request_id : ℕ
  pub serialized_state : Option (List ℕ)
  pub draft_tokens : Option (List ℤ)
  pub ctx_dp_rank : Option ℤ
  pub disagg_info_endpoint : Option String

pub record EagleConfig : Type 0 where
  pub choices : List (List ℤ)
  pub greedy_sampling : Bool
  pub posterior_threshold : Option ℕ
  pub use_dynamic_tree : Bool
  pub dynamic_tree_max_top_k : Option ℤ

unfoldable pub default_eagle : EagleConfig
default_eagle = record {
  choices = [];
  greedy_sampling = true;
  posterior_threshold = none;
  use_dynamic_tree = false;
  dynamic_tree_max_top_k = none;
}

pub data GuidedDecodingType : Type 0 where
  json json_schema regex ebnf_grammar structural_tag : GuidedDecodingType

unfoldable pub guide_type_as_i32 : GuidedDecodingType → ℤ
guide_type_as_i32 json = pos 0
guide_type_as_i32 json_schema = pos 1
guide_type_as_i32 regex = pos 2
guide_type_as_i32 ebnf_grammar = pos 3
guide_type_as_i32 structural_tag = pos 4

pub record GuidedDecodingParams : Type 0 where
  pub guide_type : GuidedDecodingType
  pub guide : Option String

pub record Request (Tensor : Type 0) : Type 0 where
  pub input_ids : List ℤ
  pub max_new_tokens : ℤ
  pub end_id : Option ℤ
  pub pad_id : Option ℤ
  pub sampling : SamplingConfig
  pub prompt_embeddings : Option Tensor
  pub prompt_embedding_token_extra_ids : Option (List ℕ)
  pub position_ids : Option (List ℤ)
  pub bad_words : List (List ℤ)
  pub stop_words : List (List ℤ)
  pub embedding_bias : Option Tensor
  pub external_draft_tokens_config : Option (ExternalDraftTokensConfig Tensor)
  pub multimodal_input : Option MultimodalInput
  pub multimodal_embedding : Option Tensor
  pub mrope_config : Option (MropeConfig Tensor)
  pub lora_config : Option (LoraConfig Tensor)
  pub lookahead_config : Option LookaheadConfig
  pub kv_cache_retention_config : Option KvCacheRetentionConfig
  pub logits_post_processor_name : Option String
  pub encoder_input_token_ids : Option (List ℤ)
  pub additional_outputs : List String
  pub return_log_probs : Bool
  pub return_context_logits : Bool
  pub return_generation_logits : Bool
  pub exclude_input_from_output : Bool
  pub return_encoder_output : Bool
  pub return_all_generated_tokens : Bool
  pub client_id : Option ℕ
  pub priority : Option ℕ
  pub request_type : RequestType
  pub context_phase_params : Option ContextPhaseParams
  pub encoder_input_features : Option Tensor
  pub encoder_output_length : Option ℤ
  pub cross_attention_mask : Option Tensor
  pub eagle_config : Option EagleConfig
  pub skip_cross_attn_blocks : Option Tensor
  pub guided_decoding_params : Option GuidedDecodingParams
  pub language_adapter_uid : Option ℤ
  pub allotted_time_ms : Option ℕ
  pub cache_salt_id : Option ℕ
  pub disagg_request_id : Option ℕ

unfoldable pub new_request : {Tensor : Type 0} → List ℤ → Request Tensor
unfolding default_sampling
new_request input_ids = record {
  input_ids = input_ids;
  max_new_tokens = pos 1;
  end_id = none;
  pad_id = none;
  sampling = default_sampling;
  prompt_embeddings = none;
  prompt_embedding_token_extra_ids = none;
  position_ids = none;
  bad_words = [];
  stop_words = [];
  embedding_bias = none;
  external_draft_tokens_config = none;
  multimodal_input = none;
  multimodal_embedding = none;
  mrope_config = none;
  lora_config = none;
  lookahead_config = none;
  kv_cache_retention_config = none;
  logits_post_processor_name = none;
  encoder_input_token_ids = none;
  additional_outputs = [];
  return_log_probs = false;
  return_context_logits = false;
  return_generation_logits = false;
  exclude_input_from_output = false;
  return_encoder_output = false;
  return_all_generated_tokens = false;
  client_id = none;
  priority = none;
  request_type = context_and_generation;
  context_phase_params = none;
  encoder_input_features = none;
  encoder_output_length = none;
  cross_attention_mask = none;
  eagle_config = none;
  skip_cross_attn_blocks = none;
  guided_decoding_params = none;
  language_adapter_uid = none;
  allotted_time_ms = none;
  cache_salt_id = none;
  disagg_request_id = none;
}

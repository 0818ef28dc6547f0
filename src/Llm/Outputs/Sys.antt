-- ===== src/Llm/Outputs/Sys.antt =====
-- tensorrt_llm-sys/src/lib.rs: the C structures of a response.
use tensorrt_rs.Prelude.{ℕ, ℤ, String, List}
use tensorrt_rs.Prelude.Pointers.{Pointer}

pub record OwnedTensor : Type 0 where
  pub contents : Pointer (List ℕ)
  pub byte_len : ℕ
  pub shape : Pointer (List ℤ)
  pub rank : ℕ
  pub data_type : ℤ

pub record NamedTensor : Type 0 where
  pub name : Pointer String
  pub tensor : OwnedTensor

pub record OwnedContextPhaseParams : Type 0 where
  pub first_gen_tokens : Pointer (List ℤ)
  pub first_gen_token_count : ℕ
  pub request_id : ℕ
  pub serialized_state : Pointer (List ℕ)
  pub serialized_state_len : ℕ
  pub draft_tokens : Pointer (List ℤ)
  pub draft_token_count : ℕ
  pub has_ctx_dp_rank : ℤ
  pub ctx_dp_rank : ℤ
  pub disagg_info_endpoint : Pointer String

pub record SpeculativeDecodingFastLogitsInfo : Type 0 where
  pub draft_request_id : ℕ
  pub draft_participant_id : ℤ

-- The flags by which the C++ side frees what it owns are left out, and its deferred copies: output.rs
-- reads none of them.
pub record Output : Type 0 where
  pub is_final : ℤ
  pub token_ids : Pointer (List ℕ)
  pub token_count : ℕ
  pub sequence_offsets : Pointer (List ℕ)
  pub sequence_count : ℕ
  pub cum_log_probs : Pointer (List ℕ)
  pub cum_log_probs_count : ℕ
  pub log_probs : Pointer (List ℕ)
  pub log_prob_count : ℕ
  pub log_prob_offsets : Pointer (List ℕ)
  pub log_prob_sequence_count : ℕ
  pub named_tensors : Pointer (List NamedTensor)
  pub named_tensor_count : ℕ
  pub has_context_logits : ℤ
  pub context_logits : OwnedTensor
  pub has_generation_logits : ℤ
  pub generation_logits : OwnedTensor
  pub has_encoder_output : ℤ
  pub encoder_output : OwnedTensor
  pub has_spec_dec_fast_logits_info : ℤ
  pub spec_dec_fast_logits_info : SpeculativeDecodingFastLogitsInfo
  pub finish_reasons : Pointer (List ℤ)
  pub finish_reason_count : ℕ
  pub has_context_phase_params : ℤ
  pub context_phase_params : OwnedContextPhaseParams
  pub sequence_index : ℤ
  pub is_sequence_final : ℤ

pub record Response : Type 0 where
  pub request_id : ℕ
  pub has_client_id : ℤ
  pub client_id : ℕ
  pub output : Output

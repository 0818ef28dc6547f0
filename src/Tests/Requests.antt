-- ===== src/Tests/Requests.antt =====
-- Requests of the crate `tensorrt_llm`: an engine, an executor that answers, and the theorems applied
-- to them.
use tensorrt_rs.Prelude.{
  ℕ, ◌≡◌, ◌↔◌, ◌<◌, ◌-◌, refl, ℤ, pos, String, true, false, List, [], ◌∷◌, map, none, some, ok, err,
  ◌>>=◌, AllPairs, arith, try_map, ℤ-discrete, ℕ_discrete, String-discrete,
}
use tensorrt_rs.Prelude.Pointers.{null, at}
use tensorrt_rs.Llm.DataTypes.{f32}
use tensorrt_rs.Llm.Errors.{panicked}
use tensorrt_rs.Llm.Config.{ValidationProfile}
use tensorrt_rs.Llm.Requests.{Request, new_request}
use tensorrt_rs.Llm.Requests.Names.{
  infer_output_tensor_names, infer_output_tensor_names-NoDuplicates, NoDuplicates,
}
use tensorrt_rs.Llm.Executor.Validate.{validate_request, validate_words_from, usize_or_zero}
use tensorrt_rs.Llm.Executor.Accepted.{validate_request_iff, IsAccepted}
use tensorrt_rs.Llm.Executor.Prompt.{
  validate_virtual_tokens, input_token_extra_ids, input_token_extra_ids_bounds,
}
use tensorrt_rs.Llm.Executor.Sys.{SysRequest}
use tensorrt_rs.Llm.Executor.Tensors.{Candle, new_shape, shape_as_slice, dimension}
use tensorrt_rs.Llm.Executor.Shapes.{shape_as_slice-new_shape}
use tensorrt_rs.Llm.Executor.Buffers.{RequestBuffers, empty_buffers, fill_buffers, recycle}
use tensorrt_rs.Llm.Executor.Structure.{RequestTensors, request_as_sys}
use tensorrt_rs.Llm.Executor.Prepare.{prepare_request}
use tensorrt_rs.Llm.Executor.Prepared.{ArrivedWords, prepare_request-words, start, given}
use tensorrt_rs.Llm.Executor.Responses.{
  Response, NativeRun, run, run_prepared_with_sink, IsFirst, run_prepared_with_sink-IsFirst,
}
use tensorrt_rs.Llm.Executor.History.{answers, answers-map}
use tensorrt_rs.Llm.Outputs.Sys as Outputs
use tensorrt_rs.Llm.Outputs.Lazy.{RawOutputGuard}

-- A tensor is its values, of 32-bit floats on the host.
abbrev candle : Candle (List ℕ)
candle = record {
  dims = λ t. 1 ∷ [];
  is_contiguous = λ t. true;
  dtype = λ t. f32;
  on_cuda = λ t. false;
  bytes = λ t data_type. ok t;
  start_offset = λ t. 0;
  elem_count = λ t. 1;
  cuda_address = λ t data_type start end. err panicked;
}

abbrev profile : ValidationProfile
profile = record {
  dtype = f32;
  executor_data_type = pos 8;
  vocab_size = 100;
  hidden_size = 4;
  max_num_tokens = 8;
  max_prompt_embedding_table_size = 16;
}

unfoldable small_request : Request (List ℕ)
unfolding new_request
small_request = record (new_request (pos 7 ∷ pos 9 ∷ [])) {
  bad_words = (pos 3 ∷ pos 4 ∷ []) ∷ (pos 5 ∷ []) ∷ [];
  max_new_tokens = pos 4;
}

validate_request_iff_example :
    (validate_request profile small_request ≡ ok tt) ↔ IsAccepted profile small_request
validate_request_iff_example = validate_request_iff profile small_request (omega arith)

abbrev no_tensors : RequestTensors
no_tensors = record {
  prompt = none;
  embedding_bias = none;
  external_draft_logits = none;
  multimodal_embedding = none;
  mrope_rotary_cos_sin = none;
  lora_weights = none;
  lora_config_tensor = none;
  encoder_input_features = none;
  cross_attention_mask = none;
  skip_cross_attn_blocks = none;
}

unfoldable small_filled : RequestBuffers
unfolding small_request fill_buffers
small_filled = fill_buffers small_request empty_buffers

unfoldable small_sys : SysRequest
unfolding small_filled small_request request_as_sys
small_sys = request_as_sys profile small_request no_tensors small_filled

small-prepared : prepare_request candle profile [] small_request ≡ ok (small_sys, small_filled, [])
unfolding small_sys prepare_request validate_words_from
small-prepared = refl

prepare_request-words_example : ArrivedWords candle profile small_request small_sys
prepare_request-words_example =
    prepare_request-words candle profile [] small_request (omega arith) small-prepared

-- A pool after one request.
abbrev used_pool : List RequestBuffers
used_pool = recycle small_filled []

abbrev a_guard : RawOutputGuard
a_guard = record { owner = 1 }

abbrev no_tensor : Outputs.OwnedTensor
no_tensor = record { contents = null; byte_len = 0; shape = null; rank = 0; data_type = pos 0 }

abbrev empty_output : ℤ → Outputs.Output
empty_output is_final = record {
  is_final = is_final;
  token_ids = null;
  token_count = 0;
  sequence_offsets = null;
  sequence_count = 0;
  cum_log_probs = null;
  cum_log_probs_count = 0;
  log_probs = null;
  log_prob_count = 0;
  log_prob_offsets = null;
  log_prob_sequence_count = 0;
  named_tensors = null;
  named_tensor_count = 0;
  has_context_logits = pos 0;
  context_logits = no_tensor;
  has_generation_logits = pos 0;
  generation_logits = no_tensor;
  has_encoder_output = pos 0;
  encoder_output = no_tensor;
  has_spec_dec_fast_logits_info = pos 0;
  spec_dec_fast_logits_info = record { draft_request_id = 0; draft_participant_id = pos 0 };
  finish_reasons = null;
  finish_reason_count = 0;
  has_context_phase_params = pos 0;
  context_phase_params = record {
    first_gen_tokens = null;
    first_gen_token_count = 0;
    request_id = 0;
    serialized_state = null;
    serialized_state_len = 0;
    draft_tokens = null;
    draft_token_count = 0;
    has_ctx_dp_rank = pos 0;
    ctx_dp_rank = pos 0;
    disagg_info_endpoint = null;
  };
  sequence_index = pos 0;
  is_sequence_final = is_final;
}

abbrev a_response : ℕ → ℤ → Outputs.Response
a_response id is_final = record {
  request_id = id;
  has_client_id = pos 0;
  client_id = 0;
  output = empty_output is_final;
}

-- Two responses, the second of which is final.
abbrev two_responses : NativeRun
two_responses = record {
  status = pos 0;
  responses = at (a_response 1 (pos 0) ∷ a_response 2 (pos 1) ∷ []);
  response_count = 2;
  error = null;
}

abbrev second_response : Response (List ℕ)
second_response = record {
  request_id = 2;
  client_id = none;
  output = record {
    tensors = [];
    is_final = true;
    finish_reasons = [];
    context_phase_params = none;
    spec_dec_fast_logits_info = none;
    sequence_index = pos 0;
    is_sequence_final = true;
  };
  raw_output = some a_guard;
}

second-answers : run_prepared_with_sink a_guard two_responses ≡ ok second_response
unfolding run_prepared_with_sink ℤ-discrete
second-answers = refl

run_prepared_with_sink-IsFirst_example :
    (two_responses.status ≡ pos 0)
    × IsFirst a_guard two_responses.responses two_responses.response_count second_response
run_prepared_with_sink-IsFirst_example =
    run_prepared_with_sink-IsFirst a_guard two_responses second-answers

answers-map_example :
    answers candle profile
      (λ request. two_responses)
      a_guard
      used_pool
      (small_request ∷ small_request ∷ [])
    ≡ map
        (λ request. (run candle profile (λ request. two_responses) a_guard [] request).0)
        (small_request ∷ small_request ∷ [])
answers-map_example =
    answers-map candle profile (λ request. two_responses) a_guard used_pool
      (small_request ∷ small_request ∷ []) (given start small_filled)

shape_as_slice-new_shape_example :
    (new_shape (2 ∷ 3 ∷ []) >>= λ s. ok (shape_as_slice s)) ≡ try_map dimension (2 ∷ 3 ∷ [])
shape_as_slice-new_shape_example = shape_as_slice-new_shape (2 ∷ 3 ∷ [])

input_token_extra_ids_bounds_example :
    AllPairs
      (λ token e. (e ≡ usize_or_zero token - 100) × (e < 3))
      (pos 7 ∷ pos 102 ∷ [])
      (input_token_extra_ids (pos 7 ∷ pos 102 ∷ []) 100)
unfolding validate_virtual_tokens
input_token_extra_ids_bounds_example =
    input_token_extra_ids_bounds (pos 7 ∷ pos 102 ∷ []) 100 3 (omega arith) (omega arith) refl

abbrev sink_names : List String
sink_names = "scores" ∷ "context_logits" ∷ "scores" ∷ []

unfoldable named_request : Request (List ℕ)
unfolding small_request
named_request = record small_request {
  additional_outputs = "scores" ∷ [];
  return_context_logits = true;
}

names-inferred : infer_output_tensor_names small_request sink_names ≡ ok named_request
unfolding infer_output_tensor_names named_request String-discrete ℕ_discrete
names-inferred = refl

infer_output_tensor_names-NoDuplicates_example : NoDuplicates named_request.additional_outputs
unfolding small_request
infer_output_tensor_names-NoDuplicates_example =
    infer_output_tensor_names-NoDuplicates sink_names small_request names-inferred tt

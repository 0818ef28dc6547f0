-- ===== src/Tests/Llm.antt =====
-- The crate `tensorrt_llm`: a response, requests and an executor that answers, and the theorems
-- applied to them.
use tensorrt_rs.Prelude.{
  ℕ, ◌≡◌, ◌≢◌, refl, pos, String, true, List, [], ◌∷◌, none, some, Result, ok, err, ◌>>=◌, arith,
  ◌==◌, nat_eq, string_eq, if◌then◌else◌, ℤ-discrete, ℕ_discrete,
}
use tensorrt_rs.Prelude.Maps.{lookup}
use tensorrt_rs.Prelude.Pointers.{null, at}
use tensorrt_rs.Llm.Errors.{Error, panicked}
use tensorrt_rs.Llm.Sampling.{SamplingConfig, default_sampling, as_sys, sampling_config}
use tensorrt_rs.Llm.Sampling.Laws.{sampling_config-as_sys}
use tensorrt_rs.Llm.Outputs.Values.{TensorData, elem_count, validate_tensor_len, from_bytes}
use tensorrt_rs.Llm.Outputs.ValueLaws.{product}
use tensorrt_rs.Llm.Outputs.Sys as Outputs
use tensorrt_rs.Llm.Outputs.Lazy.{RawOutputGuard, deferred, materialize}
use tensorrt_rs.Llm.Outputs.Offsets.{new_offsets}
use tensorrt_rs.Llm.Outputs.LazyLaws.{Related}
use tensorrt_rs.Llm.Outputs.Decode.{ExecutorOutput, from_sys, into_pairs, get}
use tensorrt_rs.Llm.Outputs.DecodeLaws.{IsReadable, SameOutput, from_sys-guards}
use tensorrt_rs.Llm.Outputs.Asked.{get-into_pairs}

abbrev Made : Type 0
Made = TensorData × List ℕ

abbrev from_vec : TensorData → List ℕ → Result Error Made
from_vec values shape =
    if elem_count values == product shape then ok (values, shape) else err panicked

made :
    (values : TensorData) (shape : List ℕ)
    → elem_count values ≡ product shape
    → (t : Made) × (from_vec values shape ≡ ok t)
made values shape h = ((values, shape), ground arith)

abbrev no_tensor : Outputs.OwnedTensor
no_tensor = record { contents = null; byte_len = 0; shape = null; rank = 0; data_type = pos 0 }

-- Two tokens in one sequence, and an output of two 32-bit floats.
abbrev two_tokens : Outputs.Output
two_tokens = record {
  is_final = pos 1;
  token_ids = at (7 ∷ 0 ∷ 0 ∷ 0 ∷ 9 ∷ 1 ∷ 0 ∷ 0 ∷ []);
  token_count = 2;
  sequence_offsets = at (0 ∷ 2 ∷ []);
  sequence_count = 1;
  cum_log_probs = null;
  cum_log_probs_count = 0;
  log_probs = null;
  log_prob_count = 0;
  log_prob_offsets = null;
  log_prob_sequence_count = 0;
  named_tensors = at (
      record {
        name = at "context_scores";
        tensor = record {
          contents = at (0 ∷ 0 ∷ 128 ∷ 63 ∷ 0 ∷ 0 ∷ 0 ∷ 64 ∷ []);
          byte_len = 8;
          shape = at (pos 1 ∷ pos 2 ∷ []);
          rank = 2;
          data_type = pos 8;
        };
      }
      ∷ []);
  named_tensor_count = 1;
  has_context_logits = pos 0;
  context_logits = no_tensor;
  has_generation_logits = pos 0;
  generation_logits = no_tensor;
  has_encoder_output = pos 0;
  encoder_output = no_tensor;
  has_spec_dec_fast_logits_info = pos 0;
  spec_dec_fast_logits_info = record { draft_request_id = 0; draft_participant_id = pos 0 };
  finish_reasons = at (pos 1 ∷ []);
  finish_reason_count = 1;
  has_context_phase_params = pos 0;
  context_phase_params = record {
    first_gen_tokens = null;
    first_gen_token_count = 0;
    request_id = 0;
    serialized_state = null;
    serialized_state_len = 0;
    draft_tokens = null;
    draft_token_count = 0;
    has_ctx_dp_rank = pos 0;
    ctx_dp_rank = pos 0;
    disagg_info_endpoint = null;
  };
  sequence_index = pos 0;
  is_sequence_final = pos 1;
}

two_tokens-IsReadable : IsReadable two_tokens
two_tokens-IsReadable = omega arith

abbrev a_guard : RawOutputGuard
a_guard = record { owner = 1 }

from_sys-guards_example :
    Related
      (SameOutput from_vec made)
      (from_sys two_tokens none)
      (from_sys two_tokens (some a_guard))
from_sys-guards_example =
    from_sys-guards from_vec made two_tokens none (some a_guard) two_tokens-IsReadable

abbrev two_tokens_read : List (String × Made)
two_tokens_read =
    ("token_ids", (TensorData.int32 (pos 7 ∷ pos 265 ∷ []), 2 ∷ []))
    ∷ ("token_offsets", (TensorData.int64 (pos 0 ∷ pos 2 ∷ []), 2 ∷ []))
    ∷ ("scores", (TensorData.float32 (1065353216 ∷ 1073741824 ∷ []), 1 ∷ 2 ∷ []))
    ∷ []

two_tokens-pairs :
    (from_sys {Tensor = Made} two_tokens (some a_guard) >>= λ out. into_pairs from_vec out)
    ≡ ok two_tokens_read
unfolding from_sys into_pairs ℕ_discrete validate_tensor_len new_offsets ℤ-discrete materialize
    from_bytes elem_count
two_tokens-pairs = refl

abbrev small_sampling : SamplingConfig
small_sampling = record default_sampling {
  beam_width_array = some (pos 2 ∷ pos 1 ∷ []);
  top_k = some (pos 4);
}

small_widths : small_sampling.beam_width_array ≢ some []
small_widths h = cc

sampling_config-as_sys_example : sampling_config (as_sys small_sampling) ≡ ok small_sampling
sampling_config-as_sys_example = sampling_config-as_sys small_sampling small_widths

-- An output with the scores alone, not made yet.
abbrev scores_output : ExecutorOutput Made
scores_output = record {
  tensors =
      record {
        name = "scores";
        values = deferred (TensorData.float32 (1065353216 ∷ 1073741824 ∷ [])) (1 ∷ 2 ∷ []) none;
      }
      ∷ [];
  is_final = true;
  finish_reasons = [];
  context_phase_params = none;
  spec_dec_fast_logits_info = none;
  sequence_index = pos 0;
  is_sequence_final = true;
}

abbrev scores_read : List (String × Made)
scores_read = ("scores", (TensorData.float32 (1065353216 ∷ 1073741824 ∷ []), 1 ∷ 2 ∷ [])) ∷ []

scores-pairs : into_pairs from_vec scores_output ≡ ok scores_read
unfolding into_pairs materialize ℕ_discrete elem_count
scores-pairs = refl

get-into_pairs_example :
    (kept : ExecutorOutput Made) × (get from_vec scores_output "scores"
      ≡ ok (lookup "scores" scores_read, kept))
    × (into_pairs from_vec kept ≡ ok scores_read)
get-into_pairs_example = get-into_pairs from_vec scores_output "scores" scores_read scores-pairs

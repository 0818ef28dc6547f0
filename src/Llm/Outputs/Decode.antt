-- ===== src/Llm/Outputs/Decode.antt =====
-- output.rs: `from_sys`, and what a caller reads of the output. A C string is its text: that it is
-- UTF-8 is taken for granted.
use Prim.Native.Char.{code}
use tensorrt_rs.Prelude.{
  ℕ, ℤ, pos, String, Bool, List, [], ◌∷◌, ◌++◌, map, is_empty, length as list_length, Option, some,
  none, Result, ok, err, ◌>>=◌, try_map, ltb, ◌==◌, nat_eq, int_eq, string_eq, not, ok_or,
  if◌then◌else◌,
}
use tensorrt_rs.Prelude.Pointers.{Pointer, null, at, is_null, from_raw_parts}
use tensorrt_rs.DataType.{DataType}
use tensorrt_rs.Llm.Errors.{Error, invalid_argument, null_result, null_name, panicked}
use tensorrt_rs.Llm.Outputs.Values.{TensorData, int64}
use tensorrt_rs.Llm.Outputs.Offsets.{output_offsets}
use tensorrt_rs.Llm.Outputs.Lazy.{
  RawOutputGuard, LazyTensor, from_typed_raw, from_offsets, from_owned, new_deferred, into_tensor,
  tensor,
}
use tensorrt_rs.Llm.Outputs.Sys.{
  OwnedTensor, NamedTensor, OwnedContextPhaseParams, SpeculativeDecodingFastLogitsInfo, Output,
}

pub record TensorOutput (Tensor : Type 0) : Type 0 where
  pub name : String
  pub values : LazyTensor Tensor

pub data FinishReason : Type 0 where
  not_finished end_id stop_words length timed_out cancelled : FinishReason
  unknown : ℤ → FinishReason

pub record OutputContextPhaseParams : Type 0 where
  pub first_gen_tokens : List ℤ
  pub request_id : ℕ
  pub serialized_state : List ℕ
  pub draft_tokens : Option (List ℤ)
  pub context_data_parallel_rank : Option ℤ
  pub disaggregated_info_endpoint : Option String

pub record ExecutorOutput (Tensor : Type 0) : Type 0 where
  pub tensors : List (TensorOutput Tensor)
  pub is_final : Bool
  pub finish_reasons : List FinishReason
  pub context_phase_params : Option OutputContextPhaseParams
  pub spec_dec_fast_logits_info : Option SpeculativeDecodingFastLogitsInfo
  pub sequence_index : ℤ
  pub is_sequence_final : Bool

unfoldable pub finish_reason : ℤ → FinishReason
finish_reason v =
    if v == pos 0
    then not_finished
    else if v == pos 1
    then end_id
    else if v == pos 2
    then stop_words
    else if v == pos 3
    then FinishReason.length
    else if v == pos 4
    then timed_out
    else if v == pos 5
    then cancelled
    else unknown v

unfoldable pub finish_reasons : Pointer (List ℤ) → ℕ → Result Error (List FinishReason)
unfolding finish_reason
finish_reasons raw count =
    if count == 0
    then ok []
    else if is_null raw
    then err (invalid_argument null_result)
    else ok (map finish_reason (from_raw_parts raw count))

-- `i32_vec` and `u8_vec`
unfoldable pub copied : {A : Type 0} → Pointer (List A) → ℕ → Result Error (List A)
copied raw count =
    if count == 0
    then ok []
    else if is_null raw
    then err (invalid_argument null_result)
    else ok (from_raw_parts raw count)

-- `(flag != 0).then_some(value)`
abbrev pub then_some : {A : Type 0} → ℤ → A → Option A
then_some flag a = if flag == pos 0 then none else some a

abbrev pub c_string : Pointer String → Option String
c_string null = none
c_string (at s) = some s

unfoldable pub context_phase_params :
    OwnedContextPhaseParams → Result Error OutputContextPhaseParams
unfolding copied
context_phase_params raw = do
  first_gen_tokens ← copied raw.first_gen_tokens raw.first_gen_token_count
  serialized_state ← copied raw.serialized_state raw.serialized_state_len
  draft_tokens ←
      if ltb 0 raw.draft_token_count
      then (copied raw.draft_tokens raw.draft_token_count >>= λ tokens. ok (some tokens))
      else ok none
  ok (record {
    first_gen_tokens = first_gen_tokens;
    request_id = raw.request_id;
    serialized_state = serialized_state;
    draft_tokens = draft_tokens;
    context_data_parallel_rank = then_some raw.has_ctx_dp_rank raw.ctx_dp_rank;
    disaggregated_info_endpoint = c_string raw.disagg_info_endpoint;
  })

unfoldable pub strip_prefix : String → String → Option String
strip_prefix String.[] s = some s
strip_prefix (String.◌∷◌ c p) String.[] = none
strip_prefix (String.◌∷◌ c p) (String.◌∷◌ d s) = if code c == code d then strip_prefix p s else none

-- `name.strip_prefix("context_").unwrap_or(&name)`
unfoldable pub plain_name : String → String
unfolding strip_prefix
plain_name name = elim (strip_prefix "context_" name) [ some rest ↦ rest | none ↦ name ]

-- `if flag != 0 { outputs.push(...?) }`
abbrev pub when : {A : Type 0} → Bool → Result Error (List A) → Result Error (List A)
when test rest = if test then rest else ok []

module _ {Tensor : Type 0} where
  unfoldable pub typed :
      DataType
      → String
      → Pointer (List ℕ)
      → ℕ
      → List ℕ
      → Option RawOutputGuard
      → Result Error (TensorOutput Tensor)
  unfolding from_typed_raw
  typed data_type name raw count shape guard =
      from_typed_raw data_type raw count shape guard >>= λ lazy.
      ok (record { name = name; values = lazy })

  unfoldable pub offsets_in :
      Pointer (List ℕ) → ℕ → ℕ → Option RawOutputGuard → Result Error (LazyTensor Tensor)
  unfolding from_offsets output_offsets new_deferred
  offsets_in ptr sequence_count data_count (some guard) =
      from_offsets ptr sequence_count data_count guard
  offsets_in ptr sequence_count data_count none = do
    read ← output_offsets ptr sequence_count data_count
    new_deferred (int64 read) (list_length read ∷ [])

  unfoldable pub offsets :
      String → Pointer (List ℕ) → ℕ → ℕ → Option RawOutputGuard → Result Error (TensorOutput Tensor)
  unfolding offsets_in
  offsets name ptr sequence_count data_count guard =
      offsets_in ptr sequence_count data_count guard >>= λ lazy.
      ok (record { name = name; values = lazy })

  unfoldable pub owned :
      String → OwnedTensor → Option RawOutputGuard → Result Error (TensorOutput Tensor)
  unfolding from_owned
  owned name raw guard = from_owned raw guard >>= λ lazy. ok (record { name = name; values = lazy })

  unfoldable pub named_tensor :
      Option RawOutputGuard → NamedTensor → Result Error (TensorOutput Tensor)
  unfolding owned plain_name
  named_tensor guard named = ok_or (c_string named.name) (invalid_argument null_name) >>= λ name.
      owned (plain_name name) named.tensor guard

  unfoldable pub named_tensors :
      Pointer (List NamedTensor)
      → ℕ
      → Option RawOutputGuard
      → Result Error (List (TensorOutput Tensor))
  unfolding named_tensor try_map
  named_tensors raw count guard =
      if count == 0
      then ok []
      else if is_null raw
      then err (invalid_argument null_result)
      else try_map (named_tensor guard) (from_raw_parts raw count)

  unfoldable pub pushed :
      Result Error (TensorOutput Tensor)
      → Result Error (List (TensorOutput Tensor))
      → Result Error (List (TensorOutput Tensor))
  pushed first rest = first >>= λ output. rest >>= λ outputs. ok (output ∷ outputs)

  -- What `from_sys` pushes one after the other.
  unfoldable pub extended :
      Result Error (List (TensorOutput Tensor))
      → Result Error (List (TensorOutput Tensor))
      → Result Error (List (TensorOutput Tensor))
  extended first rest = first >>= λ outputs. rest >>= λ more. ok (outputs ++ more)

  unfoldable pub tensor_outputs :
      Output → Option RawOutputGuard → Result Error (List (TensorOutput Tensor))
  unfolding typed offsets owned named_tensors pushed extended
  tensor_outputs raw guard =
      extended
        (when (ltb 0 raw.token_count) (
          pushed
            (typed DataType.int32 "token_ids" raw.token_ids raw.token_count (raw.token_count ∷ [])
              guard)
            (pushed
              (offsets "token_offsets" raw.sequence_offsets raw.sequence_count raw.token_count
                guard)
              (ok []))))
        (extended
          (when (ltb 0 raw.cum_log_probs_count) (
            pushed
              (typed DataType.float "cum_log_probs" raw.cum_log_probs raw.cum_log_probs_count
                (raw.cum_log_probs_count ∷ []) guard)
              (ok [])))
          (extended
            (when (ltb 0 raw.log_prob_count) (
              pushed
                (typed DataType.float "log_probs" raw.log_probs raw.log_prob_count
                  (raw.log_prob_count ∷ []) guard)
                (pushed
                  (offsets "log_prob_offsets" raw.log_prob_offsets raw.log_prob_sequence_count
                    raw.log_prob_count guard)
                  (ok []))))
            (extended
              (when (not (raw.has_context_logits == pos 0))
                (pushed (owned "context_logits" raw.context_logits guard) (ok [])))
              (extended
                (when (not (raw.has_generation_logits == pos 0))
                  (pushed (owned "generation_logits" raw.generation_logits guard) (ok [])))
                (extended
                  (when (not (raw.has_encoder_output == pos 0))
                    (pushed (owned "encoder_output" raw.encoder_output guard) (ok [])))
                  (named_tensors raw.named_tensors raw.named_tensor_count guard))))))

  unfoldable pub assembled :
      Output
      → List (TensorOutput Tensor)
      → List FinishReason
      → Option OutputContextPhaseParams
      → ExecutorOutput Tensor
  assembled raw outputs reasons params = record {
    tensors = outputs;
    is_final = not (raw.is_final == pos 0);
    finish_reasons = reasons;
    context_phase_params = params;
    spec_dec_fast_logits_info =
        then_some raw.has_spec_dec_fast_logits_info raw.spec_dec_fast_logits_info;
    sequence_index = raw.sequence_index;
    is_sequence_final = not (raw.is_sequence_final == pos 0);
  }

  unfoldable pub from_sys : Output → Option RawOutputGuard → Result Error (ExecutorOutput Tensor)
  unfolding tensor_outputs finish_reasons context_phase_params assembled
  from_sys raw guard = do
    outputs ← tensor_outputs raw guard
    reasons ← finish_reasons raw.finish_reasons raw.finish_reason_count
    params ←
        if not (raw.has_context_phase_params == pos 0)
        then (context_phase_params raw.context_phase_params >>= λ params. ok (some params))
        else ok none
    ok (assembled raw outputs reasons params)

  unfoldable pub output_is_empty : ExecutorOutput Tensor → Bool
  output_is_empty out = is_empty out.tensors

module _ {Tensor E : Type 0} (from_vec : TensorData → List ℕ → Result E Tensor) where
  unfoldable pub into_pair : TensorOutput Tensor → Result Error (String × Tensor)
  unfolding into_tensor
  into_pair out = into_tensor from_vec out.values >>= λ t. ok (out.name, t)

  -- `into_iter().collect()`
  unfoldable pub into_pairs : ExecutorOutput Tensor → Result Error (List (String × Tensor))
  unfolding into_pair try_map
  into_pairs out = try_map into_pair out.tensors

  -- `get` of the first tensor of that name, with the tensors as they are from then on.
  unfoldable pub get_in :
      String
      → List (TensorOutput Tensor)
      → Result Error (Option Tensor × List (TensorOutput Tensor))
  unfolding tensor
  get_in name [] = ok (none, [])
  get_in name (out ∷ outs) =
      let rest = get_in name outs in
      if out.name == name
      then (tensor from_vec out.values >>= λ (t, lazy).
          ok (some t, record out { values = lazy } ∷ outs))
      else (rest >>= λ (t, outs'). ok (t, out ∷ outs'))

  unfoldable pub get :
      ExecutorOutput Tensor → String → Result Error (Option Tensor × ExecutorOutput Tensor)
  unfolding get_in
  get out name = get_in name out.tensors >>= λ (t, outs). ok (t, record out { tensors = outs })

  -- `output[name]`
  unfoldable pub index :
      ExecutorOutput Tensor → String → Result Error (Tensor × ExecutorOutput Tensor)
  unfolding get
  index out name = get out name >>= λ (found, out'). ok_or found panicked >>= λ t. ok (t, out')

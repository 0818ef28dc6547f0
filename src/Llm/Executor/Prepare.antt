-- ===== src/Llm/Executor/Prepare.antt =====
-- executor.rs: `prepare_request`, with the tensors and the buffers that the structure points into.
use tensorrt_rs.Prelude.{
  ℕ, ℤ, Bool, true, false, not, List, [], ◌∷◌, Option, none, some, Result, ok, err, ◌>>=◌, ◌>>◌,
  reject, length, ltb, ◌==◌, nat_eq,
}
use tensorrt_rs.Llm.DataTypes.{DType}
use tensorrt_rs.Llm.Errors.{
  Error, invalid_argument, prompt_rank, prompt_empty, prompt_rows, prompt_hidden, not_contiguous,
  prompt_dtype, token_extra_ids_mismatch, bias_rank, bias_size,
}
use tensorrt_rs.Llm.Config.{ValidationProfile}
use tensorrt_rs.Llm.Requests.{Request}
use tensorrt_rs.Llm.Executor.Validate.{validate_request}
use tensorrt_rs.Llm.Executor.Prompt.{validate_virtual_tokens, input_token_extra_ids}
use tensorrt_rs.Llm.Executor.Sys.{SysRequest}
use tensorrt_rs.Llm.Executor.Tensors.{Candle, new_tensor_buffer, optional_buffer}
use tensorrt_rs.Llm.Executor.Buffers.{RequestBuffers, fill_buffers, checkout}
use tensorrt_rs.Llm.Executor.Structure.{
  and_then, request_as_sys, PromptEmbedding, EmbeddingBiasBuffer, RequestTensors,
}

unfoldable pub DType-discrete : Discrete DType
DType-discrete = hlevel

abbrev pub same_dtype : DType → DType → Bool
same_dtype a b = elim (DType-discrete a b) [ yes p ↦ true | no n ↦ false ]

-- `<[usize; 2]>::try_from(dims)`
unfoldable pub two_dims : List ℕ → Result Error (ℕ × ℕ)
two_dims (rows ∷ hidden ∷ []) = ok (rows, hidden)
two_dims dims = err (invalid_argument prompt_rank)

-- `<[usize; 1]>::try_from(dims)`
unfoldable pub one_dim : List ℕ → Result Error ℕ
one_dim (len ∷ []) = ok len
one_dim dims = err (invalid_argument bias_rank)

unfoldable pub prompt_extra_ids :
    ValidationProfile → List ℤ → ℕ → Option (List ℕ) → Result Error (List ℕ)
unfolding validate_virtual_tokens input_token_extra_ids
prompt_extra_ids profile input_ids rows (some ids) =
    reject (not (length ids == length input_ids))
      (invalid_argument (token_extra_ids_mismatch (length input_ids) (length ids)))
    >> ok ids
prompt_extra_ids profile input_ids rows none =
    validate_virtual_tokens input_ids profile.vocab_size rows
    >> ok (input_token_extra_ids input_ids profile.vocab_size)

module _ {Tensor : Type 0} (candle : Candle Tensor) (profile : ValidationProfile) where
  unfoldable pub prompt_embedding : Tensor → List ℤ → Option (List ℕ) → Result Error PromptEmbedding
  unfolding two_dims prompt_extra_ids new_tensor_buffer DType-discrete
  prompt_embedding tensor input_ids token_extra_ids = do
    (rows, hidden) ← two_dims (candle.dims tensor)
    reject (rows == 0) (invalid_argument prompt_empty)
    reject (ltb profile.max_prompt_embedding_table_size rows)
        (invalid_argument (prompt_rows rows profile.max_prompt_embedding_table_size))
    reject (not (hidden == profile.hidden_size))
        (invalid_argument (prompt_hidden profile.hidden_size hidden))
    reject (not (candle.is_contiguous tensor)) (invalid_argument not_contiguous)
    reject (not (same_dtype (candle.dtype tensor) profile.dtype)) (invalid_argument prompt_dtype)
    ids ← prompt_extra_ids profile input_ids rows token_extra_ids
    buffer ← new_tensor_buffer candle tensor
    ok (record { tensor = buffer; rows = rows; input_token_extra_ids = ids })

  unfoldable pub embedding_bias : Tensor → Result Error EmbeddingBiasBuffer
  unfolding one_dim new_tensor_buffer
  embedding_bias tensor = do
    len ← one_dim (candle.dims tensor)
    reject (not (len == profile.vocab_size)) (invalid_argument (bias_size profile.vocab_size len))
    reject (not (candle.is_contiguous tensor)) (invalid_argument not_contiguous)
    buffer ← new_tensor_buffer candle tensor
    ok (record { tensor = buffer; len = len })

  abbrev optional : {A B : Type 0} → (A → Result Error B) → Option A → Result Error (Option B)
  optional f none = ok none
  optional f (some a) = f a >>= λ b. ok (some b)

  unfoldable pub request_tensors : Request Tensor → Result Error RequestTensors
  unfolding prompt_embedding embedding_bias optional_buffer
  request_tensors request = do
    prompt ←
        optional
          (λ tensor.
            prompt_embedding tensor request.input_ids request.prompt_embedding_token_extra_ids)
          request.prompt_embeddings
    bias ← optional embedding_bias request.embedding_bias
    logits ←
        optional_buffer candle
          (and_then (λ config. config.logits) request.external_draft_tokens_config)
    multimodal ← optional_buffer candle request.multimodal_embedding
    rotary ←
        optional_buffer candle
          (and_then (λ config. some config.rotary_cos_sin) request.mrope_config)
    weights ← optional_buffer candle (and_then (λ config. config.weights) request.lora_config)
    config ← optional_buffer candle (and_then (λ config. config.config) request.lora_config)
    features ← optional_buffer candle request.encoder_input_features
    mask ← optional_buffer candle request.cross_attention_mask
    blocks ← optional_buffer candle request.skip_cross_attn_blocks
    ok (record {
      prompt = prompt;
      embedding_bias = bias;
      external_draft_logits = logits;
      multimodal_embedding = multimodal;
      mrope_rotary_cos_sin = rotary;
      lora_weights = weights;
      lora_config_tensor = config;
      encoder_input_features = features;
      cross_attention_mask = mask;
      skip_cross_attn_blocks = blocks;
    })

  -- The structure, the buffers that it points into, and the pool without them.
  unfoldable pub prepare_request :
      List RequestBuffers
      → Request Tensor
      → Result Error (SysRequest × RequestBuffers × List RequestBuffers)
  unfolding validate_request request_tensors checkout fill_buffers request_as_sys
  prepare_request pool request = do
    validate_request profile request
    tensors ← request_tensors request
    let (buffers, pool') = checkout pool
    let filled = fill_buffers request buffers
    ok (request_as_sys profile request tensors filled, filled, pool')

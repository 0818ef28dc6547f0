-- ===== src/Llm/Executor/Validate.antt =====
-- executor.rs: `validate_request`. A length is a `usize`, so that its sum may overflow.
use tensorrt_rs.Prelude.{
  ℕ, suc, ℤ, pos, negsuc, String, not, ◌&&◌, ◌||◌, List, [], ◌∷◌, Option, none, some, Result, ok,
  ◌>>=◌, ◌>>◌, reject, for_each, is_empty, length, ltb, ◌==◌, nat_eq, ok_or,
}
use tensorrt_rs.Prelude.Numbers.{is_finite, is_positive, int_leb, int_ltb, f32_ltb, f32_leb}
use tensorrt_rs.Tensor.{checked_add}
use tensorrt_rs.Llm.Errors.{
  Error, invalid_argument, no_input_tokens, max_new_tokens_negative, priority_not_finite,
  position_ids_mismatch, token_extra_ids_mismatch, no_draft_tokens, acceptance_threshold_range,
  multimodal_lengths, multimodal_uuids, lookahead_not_positive, retention_priority_range,
  token_start_negative, token_end_order, no_first_gen_tokens, encoder_output_length_not_positive,
  posterior_threshold_range, top_k_not_positive, language_adapter_negative, empty_word,
  token_count_overflow, too_many_tokens,
}
use tensorrt_rs.Llm.Sampling.{validate_sampling}
use tensorrt_rs.Llm.Config.{ValidationProfile}
use tensorrt_rs.Llm.Requests.{
  Request, ExternalDraftTokensConfig, MultimodalInput, LookaheadConfig,
  KvCacheTokenRangeRetentionConfig, KvCacheRetentionConfig, EagleConfig,
}

-- `if let Some(value) = option { check(value)?; }`
abbrev pub if_some :
    {A : Type 0} → (A → Result Error (Unit {0})) → Option A → Result Error (Unit {0})
if_some check none = ok tt
if_some check (some a) = check a

abbrev pub one_f32 : ℕ
one_f32 = 1065353216

-- The words from the given index on.
unfoldable pub validate_words_from : String → ℕ → List (List ℤ) → Result Error (Unit {0})
validate_words_from name index [] = ok tt
validate_words_from name index (word ∷ words) =
    reject (is_empty word) (invalid_argument (empty_word name index))
    >> validate_words_from name (suc index) words

unfoldable pub validate_word_list : String → List (List ℤ) → Result Error (Unit {0})
validate_word_list name words = validate_words_from name 0 words

unfoldable pub validate_retention_priority : String → ℤ → Result Error (Unit {0})
validate_retention_priority name priority =
    reject (not (int_leb (pos 0) priority && int_leb priority (pos 100)))
      (invalid_argument (retention_priority_range name))

unfoldable pub validate_draft :
    {Tensor : Type 0} → ExternalDraftTokensConfig Tensor → Result Error (Unit {0})
unfolding f32_leb f32_ltb is_finite
validate_draft config = do
  reject (is_empty config.tokens) (invalid_argument no_draft_tokens)
  if_some
      (λ t.
        reject (not (is_finite t) || f32_leb t 0 || f32_ltb one_f32 t)
          (invalid_argument acceptance_threshold_range))
      config.acceptance_threshold

unfoldable pub validate_multimodal : MultimodalInput → Result Error (Unit {0})
unfolding validate_word_list
validate_multimodal input = do
  validate_word_list "multimodal_hashes" input.hashes
  reject
      (not (length input.hashes == length input.positions)
        || not (length input.hashes == length input.lengths))
      (invalid_argument multimodal_lengths)
  reject (not (is_empty input.uuids) && not (length input.uuids == length input.hashes))
      (invalid_argument multimodal_uuids)

unfoldable pub validate_lookahead : LookaheadConfig → Result Error (Unit {0})
validate_lookahead config =
    reject
      (not (is_positive config.window_size)
        || not (is_positive config.ngram_size)
        || not (is_positive config.verification_set_size))
      (invalid_argument lookahead_not_positive)

unfoldable pub validate_range : KvCacheTokenRangeRetentionConfig → Result Error (Unit {0})
unfolding validate_retention_priority
validate_range range = do
  reject (int_ltb range.token_start (pos 0)) (invalid_argument token_start_negative)
  if_some (λ end. reject (int_leb end range.token_start) (invalid_argument token_end_order))
      range.token_end
  validate_retention_priority "kv_cache_retention_config priority" range.priority

unfoldable pub validate_retention : KvCacheRetentionConfig → Result Error (Unit {0})
unfolding validate_retention_priority validate_range for_each
validate_retention config = do
  validate_retention_priority "kv_cache_retention_config decode_retention_priority"
      config.decode_retention_priority
  for_each validate_range config.ranges

unfoldable pub validate_eagle : EagleConfig → Result Error (Unit {0})
unfolding validate_word_list f32_ltb is_finite
validate_eagle config = do
  validate_word_list "eagle_choices" config.choices
  if_some
      (λ t. reject (not (is_finite t) || f32_ltb t 0) (invalid_argument posterior_threshold_range))
      config.posterior_threshold
  if_some (λ k. reject (not (is_positive k)) (invalid_argument top_k_not_positive))
      config.dynamic_tree_max_top_k

-- `usize::try_from(n).unwrap_or(0)`
abbrev pub usize_or_zero : ℤ → ℕ
usize_or_zero (pos n) = n
usize_or_zero (negsuc n) = 0

-- The last part: the tokens in all.
unfoldable pub validate_total : ValidationProfile → List ℤ → ℤ → Result Error (Unit {0})
unfolding checked_add
validate_total profile input_ids max_new_tokens = do
  total_tokens ←
      ok_or (checked_add (length input_ids) (usize_or_zero max_new_tokens))
        (invalid_argument token_count_overflow)
  reject (ltb profile.max_num_tokens total_tokens)
      (invalid_argument (too_many_tokens total_tokens profile.max_num_tokens))

unfoldable pub validate_request :
    {Tensor : Type 0} → ValidationProfile → Request Tensor → Result Error (Unit {0})
unfolding validate_sampling is_finite validate_draft validate_multimodal validate_lookahead
    validate_retention validate_eagle validate_word_list validate_total
validate_request profile request = do
  validate_sampling request.sampling
  reject (is_empty request.input_ids) (invalid_argument no_input_tokens)
  reject (int_ltb request.max_new_tokens (pos 0)) (invalid_argument max_new_tokens_negative)
  if_some
      (λ ids.
        reject (not (length ids == length request.input_ids))
          (invalid_argument (position_ids_mismatch (length request.input_ids) (length ids))))
      request.position_ids
  if_some (λ p. reject (not (is_finite p)) (invalid_argument priority_not_finite)) request.priority
  if_some
      (λ ids.
        reject (not (length ids == length request.input_ids))
          (invalid_argument (token_extra_ids_mismatch (length request.input_ids) (length ids))))
      request.prompt_embedding_token_extra_ids
  if_some validate_draft request.external_draft_tokens_config
  if_some validate_multimodal request.multimodal_input
  if_some validate_lookahead request.lookahead_config
  if_some validate_retention request.kv_cache_retention_config
  if_some
      (λ params. reject (is_empty params.first_gen_tokens) (invalid_argument no_first_gen_tokens))
      request.context_phase_params
  if_some (λ n. reject (not (is_positive n)) (invalid_argument encoder_output_length_not_positive))
      request.encoder_output_length
  if_some validate_eagle request.eagle_config
  if_some (λ uid. reject (int_ltb uid (pos 0)) (invalid_argument language_adapter_negative))
      request.language_adapter_uid
  validate_word_list "bad_words" request.bad_words
  validate_word_list "stop_words" request.stop_words
  validate_total profile request.input_ids request.max_new_tokens

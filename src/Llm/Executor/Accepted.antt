-- ===== src/Llm/Executor/Accepted.antt =====
-- Which requests `validate_request` accepts.
use tensorrt_rs.Prelude.{
  ◌+◌, ◌≤◌, ◌<◌, ◌≡◌, ◌↔◌, ℤ, pos, negsuc, true, false, List, ok, All, length, is_negative, nat_eq,
  arith,
}
use tensorrt_rs.Prelude.Numbers.{is_finite}
use tensorrt_rs.Tensor.{checked_add, usize_mod}
use tensorrt_rs.Llm.Sampling.Laws.{IfSet, IsPositive, validate_sampling_iff}
use tensorrt_rs.Llm.Sampling.Laws as SamplingLaws
use tensorrt_rs.Llm.Config.{ValidationProfile}
use tensorrt_rs.Llm.Requests.{Request}
use tensorrt_rs.Llm.Executor.Validate.{
  validate_word_list, usize_or_zero, validate_total, validate_request,
}
use tensorrt_rs.Llm.Executor.Parts.{
  Decides, ◌&◌, ◌⊗◌, if_some-Decides, IsFilled, IsDraft, IsMultimodal, IsLookahead, IsRetention,
  IsEagle, IsFilled-iff, words_iff, finite_iff, IsPositive-iff, negative_iff, length_iff,
  IsDraft-iff, IsMultimodal-iff, IsLookahead-iff, IsRetention-iff, IsEagle-iff,
}

module _ {Tensor : Type 0} where
  -- What an engine of the given profile takes.
  pub record IsAccepted (profile : ValidationProfile) (r : Request Tensor) : Type 0 where
    pub sampling : SamplingLaws.IsValid r.sampling
    pub input_ids : IsFilled r.input_ids
    pub max_new_tokens : is_negative r.max_new_tokens ≡ false
    pub position_ids : IfSet (λ ids. length ids ≡ length r.input_ids) r.position_ids
    pub priority : IfSet (λ p. is_finite p ≡ true) r.priority
    pub extra_ids :
        IfSet (λ ids. length ids ≡ length r.input_ids) r.prompt_embedding_token_extra_ids
    pub draft : IfSet IsDraft r.external_draft_tokens_config
    pub multimodal : IfSet IsMultimodal r.multimodal_input
    pub lookahead : IfSet IsLookahead r.lookahead_config
    pub retention : IfSet IsRetention r.kv_cache_retention_config
    pub context_phase : IfSet (λ params. IsFilled params.first_gen_tokens) r.context_phase_params
    pub encoder_output_length : IfSet IsPositive r.encoder_output_length
    pub eagle : IfSet IsEagle r.eagle_config
    pub language_adapter_uid : IfSet (λ uid. is_negative uid ≡ false) r.language_adapter_uid
    pub bad_words : All IsFilled r.bad_words
    pub stop_words : All IsFilled r.stop_words
    pub total_tokens : length r.input_ids + usize_or_zero r.max_new_tokens ≤ profile.max_num_tokens

total_iff :
    (profile : ValidationProfile) (ids : List ℤ) (new : ℤ)
    → profile.max_num_tokens < usize_mod
    → Decides
        (validate_total profile ids new)
        (length ids + usize_or_zero new ≤ profile.max_num_tokens)
unfolding validate_total checked_add
total_iff profile ids (pos n) fits = (λ k. ground arith, λ k. ground arith)
total_iff profile ids (negsuc n) fits = (λ k. ground arith, λ k. ground arith)

module _ {Tensor : Type 0} (profile : ValidationProfile) (r : Request Tensor) where
  -- A request is accepted exactly when its parts are what the engine takes: positive widths and
  -- counts, no empty word, positions and extra identifiers for each of its tokens, thresholds and
  -- priorities in their ranges, and no more tokens in all, those to be made included, than the engine
  -- has room for, a number that is a `usize`.
  pub validate_request_iff :
      profile.max_num_tokens < usize_mod
      → (validate_request profile r ≡ ok tt) ↔ IsAccepted profile r
  unfolding validate_request validate_word_list
  validate_request_iff fits =
      let parts =
        validate_sampling_iff r.sampling
        ⊗ IsFilled-iff r.input_ids _
        ⊗ negative_iff r.max_new_tokens _
        ⊗ if_some-Decides (λ ids. length ids ≡ length r.input_ids) _
            (λ ids. length_iff ids r.input_ids _) r.position_ids
        ⊗ if_some-Decides (λ p. is_finite p ≡ true) _ (λ p. finite_iff p _) r.priority
        ⊗ if_some-Decides (λ ids. length ids ≡ length r.input_ids) _
            (λ ids. length_iff ids r.input_ids _) r.prompt_embedding_token_extra_ids
        ⊗ if_some-Decides IsDraft _ IsDraft-iff r.external_draft_tokens_config
        ⊗ if_some-Decides IsMultimodal _ IsMultimodal-iff r.multimodal_input
        ⊗ if_some-Decides IsLookahead _ IsLookahead-iff r.lookahead_config
        ⊗ if_some-Decides IsRetention _ IsRetention-iff r.kv_cache_retention_config
        ⊗ if_some-Decides (λ params. IsFilled params.first_gen_tokens) _
            (λ params. IsFilled-iff params.first_gen_tokens _) r.context_phase_params
        ⊗ if_some-Decides IsPositive _ (λ n. IsPositive-iff n _) r.encoder_output_length
        ⊗ if_some-Decides IsEagle _ IsEagle-iff r.eagle_config
        ⊗ if_some-Decides (λ uid. is_negative uid ≡ false) _ (λ uid. negative_iff uid _)
            r.language_adapter_uid
        ⊗ words_iff _ 0 r.bad_words
        ⊗ words_iff _ 0 r.stop_words
        ⊗ total_iff profile r.input_ids r.max_new_tokens fits in
      (
        λ h.
            let p = parts.0 h in
            record {
              sampling = p.0;
              input_ids = p.1.0;
              max_new_tokens = p.1.1.0;
              position_ids = p.1.1.1.0;
              priority = p.1.1.1.1.0;
              extra_ids = p.1.1.1.1.1.0;
              draft = p.1.1.1.1.1.1.0;
              multimodal = p.1.1.1.1.1.1.1.0;
              lookahead = p.1.1.1.1.1.1.1.1.0;
              retention = p.1.1.1.1.1.1.1.1.1.0;
              context_phase = p.1.1.1.1.1.1.1.1.1.1.0;
              encoder_output_length = p.1.1.1.1.1.1.1.1.1.1.1.0;
              eagle = p.1.1.1.1.1.1.1.1.1.1.1.1.0;
              language_adapter_uid = p.1.1.1.1.1.1.1.1.1.1.1.1.1.0;
              bad_words = p.1.1.1.1.1.1.1.1.1.1.1.1.1.1.0;
              stop_words = p.1.1.1.1.1.1.1.1.1.1.1.1.1.1.1.0;
              total_tokens = p.1.1.1.1.1.1.1.1.1.1.1.1.1.1.1.1;
            },
        λ a. parts.1 (
            a.sampling & a.input_ids & a.max_new_tokens & a.position_ids & a.priority & a.extra_ids
            & a.draft & a.multimodal & a.lookahead & a.retention & a.context_phase
            & a.encoder_output_length & a.eagle & a.language_adapter_uid & a.bad_words
            & a.stop_words & a.total_tokens),
      )

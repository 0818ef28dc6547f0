-- ===== src/Llm/Sampling.antt =====
-- tensorrt_llm/src/sampling.rs, and the reading of its C structure in the C++ shim. An `f32` is its
-- bit pattern.
pub mod Laws
use tensorrt_rs.Prelude.{
  false, ℕ, ℤ, pos, String, Bool, not, List, [], ◌∷◌, Option, none, some, Result, ok, err, ◌>>=◌,
  ◌>>◌, reject, for_each, any, length, ltb, ◌≡◌, if◌then◌else◌, ◌==◌, int_eq, nat_eq,
}
use tensorrt_rs.Prelude.Numbers.{is_finite, is_positive}
use tensorrt_rs.Prelude.Pointers.{Pointer, null, at, from_raw_parts}
use tensorrt_rs.Llm.Errors.{
  Error, invalid_argument, beam_width_not_positive, not_finite, num_return_sequences_not_positive,
  beam_width_array_not_positive, null_data,
}

pub record SamplingConfig : Type 0 where
  pub beam_width : ℤ
  pub top_k : Option ℤ
  pub top_p : Option ℕ
  pub top_p_min : Option ℕ
  pub top_p_reset_ids : Option ℤ
  pub top_p_decay : Option ℕ
  pub temperature : Option ℕ
  pub seed : Option ℕ
  pub min_tokens : Option ℤ
  pub beam_search_diversity_rate : Option ℕ
  pub repetition_penalty : Option ℕ
  pub presence_penalty : Option ℕ
  pub frequency_penalty : Option ℕ
  pub prompt_ignore_length : Option ℤ
  pub length_penalty : Option ℕ
  pub early_stopping : Option ℤ
  pub no_repeat_ngram_size : Option ℤ
  pub num_return_sequences : Option ℤ
  pub min_p : Option ℕ
  pub beam_width_array : Option (List ℤ)

-- `Default`
unfoldable pub default_sampling : SamplingConfig
default_sampling = record {
  beam_width = pos 1;
  top_k = none;
  top_p = none;
  top_p_min = none;
  top_p_reset_ids = none;
  top_p_decay = none;
  temperature = none;
  seed = none;
  min_tokens = none;
  beam_search_diversity_rate = none;
  repetition_penalty = none;
  presence_penalty = none;
  frequency_penalty = none;
  prompt_ignore_length = none;
  length_penalty = none;
  early_stopping = none;
  no_repeat_ngram_size = none;
  num_return_sequences = none;
  min_p = none;
  beam_width_array = none;
}

-- `if let Some(value) = value && !test(value)`
abbrev pub is_some_not : {A : Type 0} → (A → Bool) → Option A → Bool
is_some_not test none = false
is_some_not test (some a) = not (test a)

unfoldable pub float_options : SamplingConfig → List (String × Option ℕ)
float_options c =
    ("top_p", c.top_p)
    ∷ ("top_p_min", c.top_p_min)
    ∷ ("top_p_decay", c.top_p_decay)
    ∷ ("temperature", c.temperature)
    ∷ ("beam_search_diversity_rate", c.beam_search_diversity_rate)
    ∷ ("repetition_penalty", c.repetition_penalty)
    ∷ ("presence_penalty", c.presence_penalty)
    ∷ ("frequency_penalty", c.frequency_penalty)
    ∷ ("length_penalty", c.length_penalty)
    ∷ ("min_p", c.min_p)
    ∷ []

unfoldable pub check_finite : String × Option ℕ → Result Error (Unit {0})
unfolding is_finite
check_finite (name, value) =
    reject (is_some_not is_finite value) (invalid_argument (not_finite name))

unfoldable pub validate_sampling : SamplingConfig → Result Error (Unit {0})
unfolding for_each check_finite float_options
validate_sampling c = do
  reject (not (is_positive c.beam_width)) (invalid_argument beam_width_not_positive)
  for_each check_finite (float_options c)
  reject (is_some_not is_positive c.num_return_sequences)
      (invalid_argument num_return_sequences_not_positive)
  reject (is_some_not (λ widths. not (any (λ w. not (is_positive w)) widths)) c.beam_width_array)
      (invalid_argument beam_width_array_not_positive)

-- `sys::SamplingConfig`
pub record SysSamplingConfig : Type 0 where
  pub beam_width : ℤ
  pub has_top_k : ℤ
  pub top_k : ℤ
  pub has_top_p : ℤ
  pub top_p : ℕ
  pub has_top_p_min : ℤ
  pub top_p_min : ℕ
  pub has_top_p_reset_ids : ℤ
  pub top_p_reset_ids : ℤ
  pub has_top_p_decay : ℤ
  pub top_p_decay : ℕ
  pub has_temperature : ℤ
  pub temperature : ℕ
  pub has_seed : ℤ
  pub seed : ℕ
  pub has_min_tokens : ℤ
  pub min_tokens : ℤ
  pub has_beam_search_diversity_rate : ℤ
  pub beam_search_diversity_rate : ℕ
  pub has_repetition_penalty : ℤ
  pub repetition_penalty : ℕ
  pub has_presence_penalty : ℤ
  pub presence_penalty : ℕ
  pub has_frequency_penalty : ℤ
  pub frequency_penalty : ℕ
  pub has_prompt_ignore_length : ℤ
  pub prompt_ignore_length : ℤ
  pub has_length_penalty : ℤ
  pub length_penalty : ℕ
  pub has_early_stopping : ℤ
  pub early_stopping : ℤ
  pub has_no_repeat_ngram_size : ℤ
  pub no_repeat_ngram_size : ℤ
  pub has_num_return_sequences : ℤ
  pub num_return_sequences : ℤ
  pub has_min_p : ℤ
  pub min_p : ℕ
  pub beam_width_array : Pointer (List ℤ)
  pub beam_width_array_len : ℕ

-- `i32::from(option.is_some())`
abbrev pub flag : {A : Type 0} → Option A → ℤ
flag none = pos 0
flag (some a) = pos 1

-- `option.unwrap_or_default()`, of numbers.
abbrev pub int_or_zero : Option ℤ → ℤ
int_or_zero none = pos 0
int_or_zero (some n) = n

abbrev pub nat_or_zero : Option ℕ → ℕ
nat_or_zero none = 0
nat_or_zero (some n) = n

abbrev pub widths_or_empty : Option (List ℤ) → List ℤ
widths_or_empty none = []
widths_or_empty (some ws) = ws

unfoldable pub as_sys : SamplingConfig → SysSamplingConfig
as_sys c = record {
  beam_width = c.beam_width;
  has_top_k = flag c.top_k;
  top_k = int_or_zero c.top_k;
  has_top_p = flag c.top_p;
  top_p = nat_or_zero c.top_p;
  has_top_p_min = flag c.top_p_min;
  top_p_min = nat_or_zero c.top_p_min;
  has_top_p_reset_ids = flag c.top_p_reset_ids;
  top_p_reset_ids = int_or_zero c.top_p_reset_ids;
  has_top_p_decay = flag c.top_p_decay;
  top_p_decay = nat_or_zero c.top_p_decay;
  has_temperature = flag c.temperature;
  temperature = nat_or_zero c.temperature;
  has_seed = flag c.seed;
  seed = nat_or_zero c.seed;
  has_min_tokens = flag c.min_tokens;
  min_tokens = int_or_zero c.min_tokens;
  has_beam_search_diversity_rate = flag c.beam_search_diversity_rate;
  beam_search_diversity_rate = nat_or_zero c.beam_search_diversity_rate;
  has_repetition_penalty = flag c.repetition_penalty;
  repetition_penalty = nat_or_zero c.repetition_penalty;
  has_presence_penalty = flag c.presence_penalty;
  presence_penalty = nat_or_zero c.presence_penalty;
  has_frequency_penalty = flag c.frequency_penalty;
  frequency_penalty = nat_or_zero c.frequency_penalty;
  has_prompt_ignore_length = flag c.prompt_ignore_length;
  prompt_ignore_length = int_or_zero c.prompt_ignore_length;
  has_length_penalty = flag c.length_penalty;
  length_penalty = nat_or_zero c.length_penalty;
  has_early_stopping = flag c.early_stopping;
  early_stopping = int_or_zero c.early_stopping;
  has_no_repeat_ngram_size = flag c.no_repeat_ngram_size;
  no_repeat_ngram_size = int_or_zero c.no_repeat_ngram_size;
  has_num_return_sequences = flag c.num_return_sequences;
  num_return_sequences = int_or_zero c.num_return_sequences;
  has_min_p = flag c.min_p;
  min_p = nat_or_zero c.min_p;
  beam_width_array = at (widths_or_empty c.beam_width_array);
  beam_width_array_len = length (widths_or_empty c.beam_width_array);
}

-- `if (flag) set(value);`
abbrev pub set_if : {A : Type 0} → ℤ → A → Option A
set_if has a = if has == pos 0 then none else some a

-- The shim's `sampling_config`: what it sets, of a configuration in which nothing was set.
unfoldable pub sampling_config : SysSamplingConfig → Result Error SamplingConfig
sampling_config c =
    (if ltb 0 c.beam_width_array_len
      then elim c.beam_width_array [
        | null ↦ err (invalid_argument null_data)
        | at widths ↦ ok (some (from_raw_parts (at widths) c.beam_width_array_len))
      ]
      else ok none)
    >>= λ widths. ok (record {
      beam_width = c.beam_width;
      top_k = set_if c.has_top_k c.top_k;
      top_p = set_if c.has_top_p c.top_p;
      top_p_min = set_if c.has_top_p_min c.top_p_min;
      top_p_reset_ids = set_if c.has_top_p_reset_ids c.top_p_reset_ids;
      top_p_decay = set_if c.has_top_p_decay c.top_p_decay;
      temperature = set_if c.has_temperature c.temperature;
      seed = set_if c.has_seed c.seed;
      min_tokens = set_if c.has_min_tokens c.min_tokens;
      beam_search_diversity_rate =
          set_if c.has_beam_search_diversity_rate c.beam_search_diversity_rate;
      repetition_penalty = set_if c.has_repetition_penalty c.repetition_penalty;
      presence_penalty = set_if c.has_presence_penalty c.presence_penalty;
      frequency_penalty = set_if c.has_frequency_penalty c.frequency_penalty;
      prompt_ignore_length = set_if c.has_prompt_ignore_length c.prompt_ignore_length;
      length_penalty = set_if c.has_length_penalty c.length_penalty;
      early_stopping = set_if c.has_early_stopping c.early_stopping;
      no_repeat_ngram_size = set_if c.has_no_repeat_ngram_size c.no_repeat_ngram_size;
      num_return_sequences = set_if c.has_num_return_sequences c.num_return_sequences;
      min_p = set_if c.has_min_p c.min_p;
      beam_width_array = widths;
    })

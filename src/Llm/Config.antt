-- ===== src/Llm/Config.antt =====
-- tensorrt_llm/src/config.rs: what of an engine's config.json is used. `serde_json`, which makes the
-- raw structures of the file, is not modelled.
use tensorrt_rs.Prelude.{
  ℕ, ℤ, String, Option, Result, ok, err, ◌>>=◌, ok_or, ◌==◌, nat_eq, if◌then◌else◌,
}
use tensorrt_rs.DataType.{DataType, from_binding_dtype}
use tensorrt_rs.Llm.DataTypes.{DType, dtype_for_data_type, data_type_to_executor_i32}
use tensorrt_rs.Llm.Errors.{
  Error, invalid_argument, missing, model_dtype_not_supported, not_greater_than_zero,
}

pub record Config : Type 0 where
  pub data_type : DataType
  pub vocab_size : ℕ
  pub hidden_size : ℕ
  pub max_batch_size : ℕ
  pub max_num_tokens : ℕ
  pub max_prompt_embedding_table_size : ℕ

pub record RawPretrainedConfig : Type 0 where
  pub dtype : Option String
  pub vocab_size : Option ℕ
  pub hidden_size : Option ℕ

pub record RawBuildConfig : Type 0 where
  pub max_batch_size : ℕ
  pub max_num_tokens : ℕ
  pub max_prompt_embedding_table_size : ℕ

pub record RawConfig : Type 0 where
  pub pretrained_config : Option RawPretrainedConfig
  pub build_config : RawBuildConfig

unfoldable pub required_usize : Option ℕ → String → Result Error ℕ
required_usize value field = ok_or value (invalid_argument (missing field))

unfoldable pub positive_usize : ℕ → String → Result Error ℕ
positive_usize value field =
    if value == 0 then err (invalid_argument (not_greater_than_zero field)) else ok value

-- `from_json`, after the text is parsed.
unfoldable pub from_json : RawConfig → Result Error Config
unfolding required_usize positive_usize from_binding_dtype
from_json raw = do
  pretrained ← ok_or raw.pretrained_config (invalid_argument (missing "pretrained_config"))
  dtype ← ok_or pretrained.dtype (invalid_argument (missing "pretrained_config.dtype"))
  data_type ← ok_or (from_binding_dtype dtype) (invalid_argument (model_dtype_not_supported dtype))
  vocab_size ← required_usize pretrained.vocab_size "pretrained_config.vocab_size"
  hidden_size ← required_usize pretrained.hidden_size "pretrained_config.hidden_size"
  max_batch_size ← positive_usize raw.build_config.max_batch_size "build_config.max_batch_size"
  max_num_tokens ← positive_usize raw.build_config.max_num_tokens "build_config.max_num_tokens"
  ok (record {
    data_type = data_type;
    vocab_size = vocab_size;
    hidden_size = hidden_size;
    max_batch_size = max_batch_size;
    max_num_tokens = max_num_tokens;
    max_prompt_embedding_table_size = raw.build_config.max_prompt_embedding_table_size;
  })

-- executor.rs: what the validation of requests reads of it.
pub record ValidationProfile : Type 0 where
  pub dtype : DType
  pub executor_data_type : ℤ
  pub vocab_size : ℕ
  pub hidden_size : ℕ
  pub max_num_tokens : ℕ
  pub max_prompt_embedding_table_size : ℕ

unfoldable pub new_profile : Config → Result Error ValidationProfile
unfolding dtype_for_data_type data_type_to_executor_i32
new_profile config = do
  dtype ← dtype_for_data_type config.data_type
  executor_data_type ← data_type_to_executor_i32 config.data_type
  ok (record {
    dtype = dtype;
    executor_data_type = executor_data_type;
    vocab_size = config.vocab_size;
    hidden_size = config.hidden_size;
    max_num_tokens = config.max_num_tokens;
    max_prompt_embedding_table_size = config.max_prompt_embedding_table_size;
  })

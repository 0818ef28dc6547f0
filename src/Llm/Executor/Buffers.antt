-- ===== src/Llm/Executor/Buffers.antt =====
-- executor.rs: the buffers of a request and their pool. The pool is a stack; its lock is taken to be
-- whole, and of C strings the pointers are kept.
use tensorrt_rs.Prelude.{
  String, List, [], ◌∷◌, ◌++◌, map, Option, none, some, is_empty, length, if◌then◌else◌,
}
use tensorrt_rs.Prelude.Pointers.{Pointer, null, at}
use tensorrt_rs.Llm.Sampling.{flag, int_or_zero, nat_or_zero}
use tensorrt_rs.Llm.Requests.{
  KvCacheTokenRangeRetentionConfig, MultimodalInput, EagleConfig, KvCacheRetentionConfig, Request,
}
use tensorrt_rs.Llm.Executor.Words.{WordListBuffer, clear_words, replace_words}
use tensorrt_rs.Llm.Executor.Sys.{SysKvCacheTokenRangeRetentionConfig, StringList, no_names}

pub record RequestBuffers : Type 0 where
  pub bad_words : WordListBuffer
  pub stop_words : WordListBuffer
  pub multimodal_hashes : WordListBuffer
  pub multimodal_uuids : List (Pointer String)
  pub eagle_choices : WordListBuffer
  pub kv_cache_retention_ranges : List SysKvCacheTokenRangeRetentionConfig
  pub additional_outputs : List (Pointer String)

abbrev pub empty_words : WordListBuffer
empty_words = record { tokens = []; offsets = [] }

-- `Default`
abbrev pub empty_buffers : RequestBuffers
empty_buffers = record {
  bad_words = empty_words;
  stop_words = empty_words;
  multimodal_hashes = empty_words;
  multimodal_uuids = [];
  eagle_choices = empty_words;
  kv_cache_retention_ranges = [];
  additional_outputs = [];
}

unfoldable pub clear_buffers : RequestBuffers → RequestBuffers
unfolding clear_words
clear_buffers b = record {
  bad_words = clear_words b.bad_words;
  stop_words = clear_words b.stop_words;
  multimodal_hashes = clear_words b.multimodal_hashes;
  multimodal_uuids = [];
  eagle_choices = clear_words b.eagle_choices;
  kv_cache_retention_ranges = [];
  additional_outputs = [];
}

-- `NullableStringListBuffer::replace` and `StringListBuffer::replace`, which clear first.
unfoldable pub replace_nullable :
    List (Option String) → List (Pointer String) → List (Pointer String)
replace_nullable strings names = map (λ s. elim s [ none ↦ null | some text ↦ at text ]) strings

unfoldable pub replace_names : List String → List (Pointer String) → List (Pointer String)
replace_names strings names = map at strings

unfoldable pub names_as_ptr : List (Pointer String) → Pointer (List (Pointer String))
names_as_ptr names = if is_empty names then null else at names

unfoldable pub names_as_sys : List (Pointer String) → StringList
names_as_sys names =
    if is_empty names then no_names else record { names = at names; count = length names }

unfoldable pub range_as_sys : KvCacheTokenRangeRetentionConfig → SysKvCacheTokenRangeRetentionConfig
range_as_sys range = record {
  token_start = range.token_start;
  has_token_end = flag range.token_end;
  token_end = int_or_zero range.token_end;
  priority = range.priority;
  has_duration_ms = flag range.duration_ms;
  duration_ms = nat_or_zero range.duration_ms;
}

-- The buffers that only some requests use.
abbrev pub fill_multimodal : Option MultimodalInput → RequestBuffers → RequestBuffers
fill_multimodal none b = b
fill_multimodal (some input) b = record b {
  multimodal_hashes = replace_words input.hashes b.multimodal_hashes;
  multimodal_uuids = replace_nullable input.uuids b.multimodal_uuids;
}

abbrev pub fill_eagle : Option EagleConfig → RequestBuffers → RequestBuffers
fill_eagle none b = b
fill_eagle (some config) b = record b {
  eagle_choices = replace_words config.choices b.eagle_choices;
}

abbrev pub fill_ranges : Option KvCacheRetentionConfig → RequestBuffers → RequestBuffers
fill_ranges none b = b
fill_ranges (some config) b = record b {
  kv_cache_retention_ranges = b.kv_cache_retention_ranges ++ map range_as_sys config.ranges;
}

-- What `prepare_request` writes to the buffers, in its order.
unfoldable pub fill_buffers : {Tensor : Type 0} → Request Tensor → RequestBuffers → RequestBuffers
unfolding replace_words replace_nullable replace_names range_as_sys
fill_buffers request b =
    let words = record b {
      bad_words = replace_words request.bad_words b.bad_words;
      stop_words = replace_words request.stop_words b.stop_words;
    } in
    let filled =
      fill_ranges request.kv_cache_retention_config
        (fill_eagle request.eagle_config (fill_multimodal request.multimodal_input words)) in
    record filled {
      additional_outputs = replace_names request.additional_outputs filled.additional_outputs;
    }

-- `pop().unwrap_or_default()`
unfoldable pub checkout : List RequestBuffers → RequestBuffers × List RequestBuffers
checkout [] = (empty_buffers, [])
checkout (b ∷ pool) = (b, pool)

unfoldable pub recycle : RequestBuffers → List RequestBuffers → List RequestBuffers
unfolding clear_buffers
recycle b pool = clear_buffers b ∷ pool

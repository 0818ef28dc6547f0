-- ===== src/Llm/Executor/Words.antt =====
-- executor.rs: lists of words for the C side, all tokens in one array and the offsets of the words in
-- another, in buffers that are used again; and how the C++ shim reads them
-- (tensorrt_llm-sys/native/tensorrt_llm_executor.cpp, `word_list` and `nested_tokens`). The two say the
-- same in different words, which is one reason here, but for the list that is too short.
use tensorrt_rs.Prelude.{
  ℕ, ◌-◌, ℤ, not, ◌||◌, ◌&&◌, List, [], ◌∷◌, ◌++◌, Option, none, some, Result, ok, ◌>>=◌, ◌>>◌,
  reject, is_empty, length, take, drop, leb, ltb, ◌==◌, nat_eq, if◌then◌else◌,
}
use tensorrt_rs.Prelude.Pointers.{Pointer, null, at, is_null, from_raw_parts}
use tensorrt_rs.Llm.Errors.{
  Error, invalid_argument, null_words, few_words, invalid_words, invalid_word,
}
use tensorrt_rs.Llm.Outputs.Offsets.{ends_match}

pub record WordListBuffer : Type 0 where
  pub tokens : List ℤ
  pub offsets : List ℕ

unfoldable pub clear_words : WordListBuffer → WordListBuffer
clear_words b = record b { tokens = []; offsets = [] }

-- The loop of `replace`.
unfoldable pub push_words : List (List ℤ) → WordListBuffer → WordListBuffer
push_words [] b = b
push_words (word ∷ words) b =
    push_words words (record {
      tokens = b.tokens ++ word;
      offsets = b.offsets ++ (length (b.tokens ++ word) ∷ []);
    })

unfoldable pub replace_words : List (List ℤ) → WordListBuffer → WordListBuffer
unfolding clear_words push_words
replace_words words b =
    let cleared = clear_words b in
    if is_empty words
    then cleared
    else push_words words (record cleared { offsets = cleared.offsets ++ (0 ∷ []) })

-- `sys::WordList`
pub record WordList : Type 0 where
  pub tokens : Pointer (List ℤ)
  pub token_count : ℕ
  pub offsets : Pointer (List ℕ)
  pub offset_count : ℕ

unfoldable pub words_as_sys : WordListBuffer → WordList
words_as_sys b =
    if is_empty b.tokens
    then record { tokens = null; token_count = 0; offsets = null; offset_count = 0 }
    else record {
      tokens = at b.tokens;
      token_count = length b.tokens;
      offsets = at b.offsets;
      offset_count = length b.offsets;
    }

-- The loop of the shim, over the offsets that are left.
unfoldable pub read_words : List ℤ → ℕ → List ℕ → Result Error (List (List ℤ))
read_words tokens token_count [] = ok []
read_words tokens token_count (begin ∷ []) = ok []
read_words tokens token_count (begin ∷ end ∷ rest) =
    reject (leb end begin || ltb token_count end) (invalid_argument invalid_word)
    >> (read_words tokens token_count (end ∷ rest) >>= λ words.
        ok (take (end - begin) (drop begin tokens) ∷ words))

-- Offsets that match the tokens, and the words between them.
unfoldable pub checked_words : List ℤ → ℕ → List ℕ → Result Error (List (List ℤ))
unfolding ends_match read_words
checked_words tokens token_count offsets =
    reject (not (ends_match offsets token_count)) (invalid_argument invalid_words)
    >> read_words tokens token_count offsets

unfoldable pub nested_tokens : WordList → Result Error (List (List ℤ))
unfolding checked_words
nested_tokens list =
    if list.offset_count == 0
    then ok []
    else (reject (is_null list.tokens || is_null list.offsets) (invalid_argument null_words)
        >> (reject (ltb list.offset_count 2) (invalid_argument invalid_words)
            >> checked_words (from_raw_parts list.tokens list.token_count) list.token_count
                (from_raw_parts list.offsets list.offset_count)))

unfoldable pub word_list : WordList → Result Error (Option (List (List ℤ)))
unfolding checked_words
word_list input =
    if input.offset_count == 0 && input.token_count == 0
    then ok none
    else (reject (is_null input.tokens || is_null input.offsets) (invalid_argument null_words)
        >> (reject (ltb input.offset_count 2) (invalid_argument few_words)
            >> (checked_words (from_raw_parts input.tokens input.token_count) input.token_count
                  (from_raw_parts input.offsets input.offset_count)
                >>= λ words. ok (some words))))

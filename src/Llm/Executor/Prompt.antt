-- ===== src/Llm/Executor/Prompt.antt =====
-- executor.rs: the tokens that stand for rows of a prompt's embedding table. A token is an `i32`.
use tensorrt_rs.Prelude.{
  ℕ, ◌+◌, ◌-◌, ◌<◌, ◌≤◌, ◌≡◌, ℤ, pos, negsuc, ◌&&◌, List, [], ◌∷◌, map, Result, ok, ◌>>=◌, >>-eq-ok,
  reject, for_each, All, AllPairs, ltb, leb, magnitude, ok_or, arith, Bool-cases, inl, inr,
  if◌then◌else◌,
}
use tensorrt_rs.Prelude.Numbers.{int_leb}
use tensorrt_rs.Tensor.{checked_add, usize_mod}
use tensorrt_rs.Llm.Errors.{Error, invalid_argument, virtual_range_overflow, virtual_token}
use tensorrt_rs.Llm.Executor.Validate.{usize_or_zero}

unfoldable pub check_virtual_token : ℕ → ℕ → ℤ → Result Error (Unit {0})
check_virtual_token vocab_size prompt_end (pos token) =
    reject (leb vocab_size token && leb prompt_end token)
      (invalid_argument (virtual_token token vocab_size prompt_end))
check_virtual_token vocab_size prompt_end (negsuc n) = ok tt

unfoldable pub validate_virtual_tokens : List ℤ → ℕ → ℕ → Result Error (Unit {0})
unfolding checked_add check_virtual_token for_each
validate_virtual_tokens input_ids vocab_size prompt_rows =
    ok_or (checked_add vocab_size prompt_rows) (invalid_argument virtual_range_overflow)
    >>= λ prompt_end. for_each (check_virtual_token vocab_size prompt_end) input_ids

-- `i32::try_from(n).unwrap_or(i32::MAX)`
abbrev pub i32_or_max : ℕ → ℕ
i32_or_max n = if ltb n 2147483648 then n else 2147483647

-- `token - vocab_size` is not negative where it is taken.
unfoldable pub extra_id : ℕ → ℤ → ℕ
extra_id vocab_size token =
    if int_leb (pos vocab_size) token then usize_or_zero token - vocab_size else 0

unfoldable pub input_token_extra_ids : List ℤ → ℕ → List ℕ
unfolding extra_id
input_token_extra_ids input_ids vocab_size = map (extra_id (i32_or_max vocab_size)) input_ids

abbrev pub IsI32 : ℤ → Type 0
IsI32 z = magnitude z ≤ 2147483648 × usize_or_zero z < 2147483648

one_id :
    (vocab rows : ℕ) (token : ℤ)
    → 0 < rows
    → IsI32 token
    → check_virtual_token vocab (vocab + rows) token ≡ ok tt
    → let e = extra_id (i32_or_max vocab) token in (e ≡ usize_or_zero token - vocab) × (e < rows)
unfolding check_virtual_token extra_id
one_id vocab rows (pos n) r i h = ground arith
one_id vocab rows (negsuc n) r i h = ground arith

all_ids :
    (vocab rows : ℕ) (tokens : List ℤ)
    → 0 < rows
    → All IsI32 tokens
    → for_each (check_virtual_token vocab (vocab + rows)) tokens ≡ ok tt
    → AllPairs
        (λ token e. (e ≡ usize_or_zero token - vocab) × (e < rows))
        tokens
        (map (extra_id (i32_or_max vocab)) tokens)
unfolding for_each
all_ids vocab rows [] r i h = tt
all_ids vocab rows (t ∷ ts) r (i, is) h =
    let (a, b) = >>-eq-ok _ _ h in (one_id vocab rows t r i a, all_ids vocab rows ts r is b)

-- Where the tokens of a request, each an `i32`, are accepted for a table that has rows, each of them is
-- given the number by which it exceeds the size of the vocabulary, 0 if it does not, and that number
-- is below the number of rows, however large the vocabulary is.
pub input_token_extra_ids_bounds :
    (input_ids : List ℤ) (vocab_size prompt_rows : ℕ)
    → 0 < prompt_rows
    → All IsI32 input_ids
    → validate_virtual_tokens input_ids vocab_size prompt_rows ≡ ok tt
    → AllPairs
        (λ token e. (e ≡ usize_or_zero token - vocab_size) × (e < prompt_rows))
        input_ids
        (input_token_extra_ids input_ids vocab_size)
unfolding validate_virtual_tokens input_token_extra_ids checked_add
input_token_extra_ids_bounds ids vocab rows r i h =
    elim (Bool-cases (ltb (vocab + rows) usize_mod)) [
      | inl m ↦ all_ids vocab rows ids r i (rw m at h)
      | inr m ↦ let k = (rw m at h) in absurd (cc)
    ]

-- ===== src/Llm/Executor/WordLaws.antt =====
-- Words that are written to a used buffer arrive in the shim as they were.
use mathlib.Core.List.{append_assoc, append-nil}
use tensorrt_rs.Prelude.{
  ℕ, ◌+◌, ◌-◌, ◌≤◌, ◌<◌, ◌≡◌, refl, ap, sym, subst, leb, ltb, ◌||◌, ◌==◌, nat_eq, ==_refl,
  ℕ_discrete, ◌∙◌, ℤ, true, false, List, [], ◌∷◌, ◌++◌, none, some, ok, ◌>>=◌, All, is_empty,
  length, length-append, take, take-append, drop, arith, if◌then◌else◌,
}
use tensorrt_rs.Prelude.Pointers.{at}
use tensorrt_rs.Llm.Outputs.Offsets.{ends_match, last}
use tensorrt_rs.Llm.Executor.Words.{
  WordListBuffer, clear_words, push_words, replace_words, words_as_sys, read_words, checked_words,
  word_list, nested_tokens,
}

-- Where words end that begin at `n`.
abbrev ends : ℕ → List (List ℤ) → List ℕ
ends n [] = []
ends n (w ∷ ws) = (n + length w) ∷ ends (n + length w) ws

abbrev joined : List (List ℤ) → List ℤ
joined [] = []
joined (w ∷ ws) = w ++ joined ws

push_words-joined :
    (ws : List (List ℤ)) (ts : List ℤ) (os : List ℕ)
    → push_words ws (record { tokens = ts; offsets = os })
      ≡ record { tokens = ts ++ joined ws; offsets = os ++ ends (length ts) ws }
unfolding push_words
push_words-joined [] ts os = rw (append-nil ts, append-nil os)
push_words-joined (w ∷ ws) ts os =
    push_words-joined ws (ts ++ w) (os ++ (length (ts ++ w) ∷ []))
    ∙ rw (
      append_assoc ts w (joined ws),
      append_assoc os _ (ends (length (ts ++ w)) ws),
      length-append ts w,
    )

drop-append : (xs ys : List ℤ) → drop (length xs) (xs ++ ys) ≡ ys
drop-append [] ys = refl
drop-append (x ∷ xs) ys = drop-append xs ys

last-ends : (n : ℕ) (ws : List (List ℤ)) → last (n ∷ ends n ws) ≡ some (n + length (joined ws))
last-ends n [] = ap some (omega arith)
last-ends n (w ∷ ws) =
    last-ends (n + length w) ws ∙ ap some (omega (arith, length-append w (joined ws)))

length_left : (m n : ℕ) → m + n - m ≡ n
length_left m n = omega arith

-- The shim cuts the tokens at the offsets.
read_words-ends :
    (ws : List (List ℤ)) (before : List ℤ) (count : ℕ)
    → All (λ w. 0 < length w) ws
    → length (before ++ joined ws) ≤ count
    → read_words (before ++ joined ws) count (length before ∷ ends (length before) ws) ≡ ok ws
unfolding read_words
read_words-ends [] before count filled fits = refl
read_words-ends (w ∷ ws) before count (f, fs) fits =
    let n = length before in
    let total : length (before ++ (w ++ joined ws)) ≡ n + (length w + length (joined ws)) =
      length-append before (w ++ joined ws) ∙ ap (λ k. n + k) (length-append w (joined ws)) in
    let test : (leb (n + length w) n || ltb count (n + length w)) ≡ false = ground (arith, total) in
    let cut : take (n + length w - n) (drop n (before ++ (w ++ joined ws))) ≡ w =
      rw (drop-append before (w ++ joined ws), length_left n (length w))
        (take-append w (joined ws)) in
    let rest : read_words (before ++ (w ++ joined ws)) count
          ((n + length w) ∷ ends (n + length w) ws)
        ≡ ok ws =
      subst (λ t. read_words t count ((n + length w) ∷ ends (n + length w) ws) ≡ ok ws)
        (append_assoc before w (joined ws))
        (subst (λ k. read_words ((before ++ w) ++ joined ws) count (k ∷ ends k ws) ≡ ok ws)
          (length-append before w)
          (read_words-ends ws (before ++ w) count fs
            (subst (λ t. length t ≤ count) (sym (append_assoc before w (joined ws))) fits))) in
    rw (test, rest, cut)

-- A buffer after `replace` holds the words, whatever it held before.
replace_words-joined :
    (w : List ℤ) (ws : List (List ℤ)) (b : WordListBuffer)
    → replace_words (w ∷ ws) b ≡ record { tokens = joined (w ∷ ws); offsets = 0 ∷ ends 0 (w ∷ ws) }
unfolding replace_words clear_words
replace_words-joined w ws b = push_words-joined (w ∷ ws) [] (0 ∷ [])

taken : {A : Type 0} (xs : List A) → take (length xs) xs ≡ xs
taken [] = refl
taken (x ∷ xs) = ap (◌∷◌ x) (taken xs)

-- What the shim is handed of words that are not empty.
handed :
    (w : List ℤ) (ws : List (List ℤ)) (b : WordListBuffer)
    → 0 < length w
    → words_as_sys (replace_words (w ∷ ws) b) ≡ record {
      tokens = at (joined (w ∷ ws));
      token_count = length (joined (w ∷ ws));
      offsets = at (0 ∷ ends 0 (w ∷ ws));
      offset_count = length (0 ∷ ends 0 (w ∷ ws));
    }
unfolding words_as_sys
handed (t ∷ ts) ws b f = rw (replace_words-joined (t ∷ ts) ws b)
handed [] ws b f = absurd (omega arith)

checked :
    (ts : List ℤ) (os : List ℕ) {ws : List (List ℤ)}
    → ends_match os (length ts) ≡ true
    → read_words ts (length ts) os ≡ ok ws
    → checked_words ts (length ts) os ≡ ok ws
unfolding checked_words
checked ts os matched read = rw matched read

-- Two offsets or more that match the tokens are read.
accepted :
    (ts : List ℤ) (m n : ℕ) (os : List ℕ) {ws : List (List ℤ)}
    → ends_match (m ∷ n ∷ os) (length ts) ≡ true
    → read_words ts (length ts) (m ∷ n ∷ os) ≡ ok ws
    → word_list (record {
      tokens = at ts;
      token_count = length ts;
      offsets = at (m ∷ n ∷ os);
      offset_count = length (m ∷ n ∷ os);
    })
      ≡ ok (some ws)
unfolding word_list
accepted ts m n os matched read =
    let some_offsets : (length (m ∷ n ∷ os) == 0) ≡ false = ground arith in
    let two_offsets : ltb (length (m ∷ n ∷ os)) 2 ≡ false = ground arith in
    rw (some_offsets, two_offsets)
      (ap (λ r. r >>= λ words. ok (some words))
        (ap (λ o. checked_words (take (length ts) ts) (length ts) o) (taken (m ∷ n ∷ os))
          ∙ ap (λ t. checked_words t (length ts) (m ∷ n ∷ os)) (taken ts)
          ∙ checked ts (m ∷ n ∷ os) matched read))

nested :
    (ts : List ℤ) (m n : ℕ) (os : List ℕ) {ws : List (List ℤ)}
    → ends_match (m ∷ n ∷ os) (length ts) ≡ true
    → read_words ts (length ts) (m ∷ n ∷ os) ≡ ok ws
    → nested_tokens (record {
      tokens = at ts;
      token_count = length ts;
      offsets = at (m ∷ n ∷ os);
      offset_count = length (m ∷ n ∷ os);
    })
      ≡ ok ws
unfolding nested_tokens
nested ts m n os matched read =
    let some_offsets : (length (m ∷ n ∷ os) == 0) ≡ false = ground arith in
    let two_offsets : ltb (length (m ∷ n ∷ os)) 2 ≡ false = ground arith in
    rw (some_offsets, two_offsets)
      (ap (λ o. checked_words (take (length ts) ts) (length ts) o) (taken (m ∷ n ∷ os))
        ∙ ap (λ t. checked_words t (length ts) (m ∷ n ∷ os)) (taken ts)
        ∙ checked ts (m ∷ n ∷ os) matched read)

ends-match : (ws : List (List ℤ)) → ends_match (0 ∷ ends 0 ws) (length (joined ws)) ≡ true
unfolding ends_match
ends-match ws = rw (last-ends 0 ws) (ground (arith, ==_refl (length (joined ws))))

module _ (b : WordListBuffer) where
  read_back :
      (w : List ℤ) (ws : List (List ℤ))
      → All (λ v. 0 < length v) (w ∷ ws)
      → word_list (words_as_sys (replace_words (w ∷ ws) b)) ≡ ok (some (w ∷ ws))
  unfolding word_list ends_match
  read_back w ws filled = rw (handed w ws b filled.0) (
      accepted (joined (w ∷ ws)) 0 (0 + length w) (ends (0 + length w) ws) (ends-match (w ∷ ws))
        (read_words-ends (w ∷ ws) [] (length (joined (w ∷ ws))) filled (omega arith)))

  -- Words none of which is empty arrive in the shim as they are and in order, whatever the buffer
  -- held before, and no words arrive as none.
  pub word_list-replace_words :
      (words : List (List ℤ))
      → All (λ w. 0 < length w) words
      → word_list (words_as_sys (replace_words words b))
        ≡ ok (if is_empty words then none else some words)
  unfolding word_list replace_words clear_words words_as_sys ℕ_discrete
  word_list-replace_words [] filled = refl
  word_list-replace_words (w ∷ ws) filled = read_back w ws filled

  pub nested_tokens-replace_words :
      (words : List (List ℤ))
      → All (λ w. 0 < length w) words
      → nested_tokens (words_as_sys (replace_words words b)) ≡ ok words
  unfolding nested_tokens replace_words clear_words words_as_sys ℕ_discrete
  nested_tokens-replace_words [] filled = refl
  nested_tokens-replace_words (w ∷ ws) filled = rw (handed w ws b filled.0) (
      nested (joined (w ∷ ws)) 0 (0 + length w) (ends (0 + length w) ws) (ends-match (w ∷ ws))
        (read_words-ends (w ∷ ws) [] (length (joined (w ∷ ws))) filled (omega arith)))

-- ===== src/Llm/Executor/Parts.antt =====
-- What each part of a request that `validate_request` looks at has to be.
use tensorrt_rs.Prelude.{
  ℕ, suc, ◌≤◌, ◌<◌, ◌≡◌, refl, ◌↔◌, ◌⊎◌, inl, inr, ℤ, pos, negsuc, String, true, false, not, ◌&&◌,
  ◌||◌, List, [], ◌∷◌, Option, none, some, Result, ok, ◌>>◌, >>-eq-ok, >>-ok, reject, for_each, All,
  is_empty, length, is_negative, magnitude, ◌==◌, ==_iff, nat_eq, arith,
}
use tensorrt_rs.Prelude.Numbers.{is_finite, is_positive, int_leb, int_ltb, f32_ltb, f32_leb}
use tensorrt_rs.Llm.Errors.{Error}
use tensorrt_rs.Llm.Sampling.Laws.{IfSet, IsPositive}
use tensorrt_rs.Llm.Requests.{
  ExternalDraftTokensConfig, MultimodalInput, LookaheadConfig, KvCacheTokenRangeRetentionConfig,
  KvCacheRetentionConfig, EagleConfig,
}
use tensorrt_rs.Llm.Executor.Validate.{
  if_some, one_f32, validate_words_from, validate_word_list, validate_retention_priority,
  validate_draft, validate_multimodal, validate_lookahead, validate_range, validate_retention,
  validate_eagle,
}

-- A check that passes exactly when a predicate holds.
abbrev pub Decides : Result Error (Unit {0}) → Type 0 → Type 0
Decides check P = (check ≡ ok tt) ↔ P

infixr 5 ◌⊗◌ ◌&◌
abbrev pub ◌&◌ : {P Q : Type 0} → P → Q → P × Q
p & q = (p, q)

-- Two checks, one after the other.
pub ◌⊗◌ :
    {P Q : Type 0} {m n : Result Error (Unit {0})}
    → Decides m P
    → Decides n Q
    → Decides (m >> n) (P × Q)
◌⊗◌ {m = m} {n = n} p q =
    (λ h. let (a, b) = >>-eq-ok m n h in (p.0 a, q.0 b), λ h. >>-ok m n (p.1 h.0) (q.1 h.1))

pub if_some-Decides :
    {A : Type 0} (P : A → Type 0) (check : A → Result Error (Unit {0}))
    → ((a : A) → Decides (check a) (P a))
    → (o : Option A) → Decides (if_some check o) (IfSet P o)
if_some-Decides P check each none = (λ _. tt, λ _. refl)
if_some-Decides P check each (some a) = each a

pub for_each-Decides :
    {A : Type 0} (P : A → Type 0) (check : A → Result Error (Unit {0}))
    → ((a : A) → Decides (check a) (P a))
    → (xs : List A) → Decides (for_each check xs) (All P xs)
unfolding for_each
for_each-Decides P check each [] = (λ _. tt, λ _. refl)
for_each-Decides P check each (x ∷ xs) =
    ◌⊗◌ {m = check x} {n = for_each check xs} (each x) (for_each-Decides P check each xs)

abbrev pub IsFilled : {A : Type 0} → List A → Type 0
IsFilled xs = 0 < length xs

-- A number from 0 to 100.
abbrev pub IsPriority : ℤ → Type 0
IsPriority p = (is_negative p ≡ false) × (magnitude p ≤ 100)

abbrev pub IsThreshold : ℕ → Type 0
IsThreshold t = (is_finite t ≡ true) × (f32_leb t 0 ≡ false) × (f32_ltb one_f32 t ≡ false)

abbrev pub IsDraft : {Tensor : Type 0} → ExternalDraftTokensConfig Tensor → Type 0
IsDraft c = IsFilled c.tokens × IfSet IsThreshold c.acceptance_threshold

-- As many positions and lengths as hashes, and identifiers for all of them or for none.
abbrev pub IsMultimodal : MultimodalInput → Type 0
IsMultimodal m =
    All IsFilled m.hashes
    × (((length m.hashes ≡ length m.positions) × (length m.hashes ≡ length m.lengths))
        × ((length m.uuids ≡ 0) ⊎ (length m.uuids ≡ length m.hashes)))

abbrev pub IsLookahead : LookaheadConfig → Type 0
IsLookahead c =
    IsPositive c.window_size × IsPositive c.ngram_size × IsPositive c.verification_set_size

abbrev pub IsRange : KvCacheTokenRangeRetentionConfig → Type 0
IsRange r =
    (is_negative r.token_start ≡ false)
    × (IfSet (λ end. int_ltb r.token_start end ≡ true) r.token_end × IsPriority r.priority)

abbrev pub IsRetention : KvCacheRetentionConfig → Type 0
IsRetention c = IsPriority c.decode_retention_priority × All IsRange c.ranges

-- A finite number that is not negative.
abbrev pub IsPosterior : ℕ → Type 0
IsPosterior t = (is_finite t ≡ true) × (f32_ltb t 0 ≡ false)

abbrev pub IsEagle : EagleConfig → Type 0
IsEagle c =
    All IsFilled c.choices
    × (IfSet IsPosterior c.posterior_threshold × IfSet IsPositive c.dynamic_tree_max_top_k)

pub IsFilled-iff :
    {A : Type 0} (xs : List A) (e : Error) → Decides (reject (is_empty xs) e) (IsFilled xs)
IsFilled-iff [] e = (λ h. absurd (cc), λ h. absurd (omega arith))
IsFilled-iff (x ∷ xs) e = (λ h. omega arith, λ h. refl)

pub words_iff :
    (name : String) (index : ℕ) (ws : List (List ℤ))
    → Decides (validate_words_from name index ws) (All IsFilled ws)
unfolding validate_words_from
words_iff name index [] = (λ _. tt, λ _. refl)
words_iff name index (w ∷ ws) = IsFilled-iff w _ ⊗ words_iff name (suc index) ws

pub IsPriority-iff :
    (name : String) (p : ℤ) → Decides (validate_retention_priority name p) (IsPriority p)
unfolding validate_retention_priority
IsPriority-iff name (pos n) = (λ h. ground arith, λ h. ground arith)
IsPriority-iff name (negsuc n) = (λ h. ground arith, λ h. ground arith)

pub finite_iff : (b : ℕ) (e : Error) → Decides (reject (not (is_finite b)) e) (is_finite b ≡ true)
finite_iff b e = (λ h. ground arith, λ h. ground arith)

pub IsPositive-iff : (n : ℤ) (e : Error) → Decides (reject (not (is_positive n)) e) (IsPositive n)
IsPositive-iff n e = (λ h. ground arith, λ h. ground arith)

pub negative_iff :
    (n : ℤ) (e : Error) → Decides (reject (int_ltb n (pos 0)) e) (is_negative n ≡ false)
negative_iff (pos n) e = (λ h. ground arith, λ h. ground arith)
negative_iff (negsuc n) e = (λ h. ground arith, λ h. ground arith)

pub length_iff :
    {A B : Type 0} (xs : List A) (ys : List B) (e : Error)
    → Decides (reject (not (length xs == length ys)) e) (length xs ≡ length ys)
length_iff xs ys e = (
  λ h. ground (arith, ==_iff (length xs) (length ys)),
  λ h. ground (arith, ==_iff (length xs) (length ys)),
)

pub IsDraft-iff :
    {Tensor : Type 0} (c : ExternalDraftTokensConfig Tensor)
    → Decides (validate_draft c) (IsDraft c)
unfolding validate_draft
IsDraft-iff c =
    IsFilled-iff c.tokens _
    ⊗ if_some-Decides IsThreshold _ (λ t. (λ h. ground arith, λ h. ground arith))
        c.acceptance_threshold

pub uuids_iff :
    {A : Type 0} (uuids : List A) (hashes : ℕ) (e : Error)
    → Decides
        (reject (not (is_empty uuids) && not (length uuids == hashes)) e)
        ((length uuids ≡ 0) ⊎ (length uuids ≡ hashes))
uuids_iff [] hashes e = (λ h. inl refl, λ h. refl)
uuids_iff (u ∷ us) hashes e = (
  λ h. inr (ground (arith, ==_iff (length (u ∷ us)) hashes)),
  λ h. ground (arith, ==_iff (length (u ∷ us)) hashes),
)

pub lengths_iff :
    (m : MultimodalInput) (e : Error)
    → Decides
        (reject
          (not (length m.hashes == length m.positions) || not (length m.hashes == length m.lengths))
          e)
        ((length m.hashes ≡ length m.positions) × (length m.hashes ≡ length m.lengths))
lengths_iff m e = (
  λ h. ground (
    arith,
    ==_iff (length m.hashes) (length m.positions),
    ==_iff (length m.hashes) (length m.lengths),
  ),
  λ h. ground (
    arith,
    ==_iff (length m.hashes) (length m.positions),
    ==_iff (length m.hashes) (length m.lengths),
  ),
)

pub IsMultimodal-iff : (m : MultimodalInput) → Decides (validate_multimodal m) (IsMultimodal m)
unfolding validate_multimodal validate_word_list
IsMultimodal-iff m =
    words_iff _ 0 m.hashes ⊗ lengths_iff m _ ⊗ uuids_iff m.uuids (length m.hashes) _

pub IsLookahead-iff : (c : LookaheadConfig) → Decides (validate_lookahead c) (IsLookahead c)
unfolding validate_lookahead
IsLookahead-iff c = (λ h. ground arith, λ h. ground arith)

pub end_iff :
    (start end : ℤ) (e : Error) → Decides (reject (int_leb end start) e) (int_ltb start end ≡ true)
end_iff start end e = (λ h. ground arith, λ h. ground arith)

pub IsRange-iff : (r : KvCacheTokenRangeRetentionConfig) → Decides (validate_range r) (IsRange r)
unfolding validate_range
IsRange-iff r =
    negative_iff r.token_start _
    ⊗ if_some-Decides _ _ (λ end. end_iff r.token_start end _) r.token_end
    ⊗ IsPriority-iff _ r.priority

pub IsRetention-iff : (c : KvCacheRetentionConfig) → Decides (validate_retention c) (IsRetention c)
unfolding validate_retention
IsRetention-iff c =
    IsPriority-iff _ c.decode_retention_priority
    ⊗ for_each-Decides IsRange validate_range IsRange-iff c.ranges

pub IsEagle-iff : (c : EagleConfig) → Decides (validate_eagle c) (IsEagle c)
unfolding validate_eagle validate_word_list
IsEagle-iff c =
    words_iff _ 0 c.choices
    ⊗ if_some-Decides IsPosterior _ (λ t. (λ h. ground arith, λ h. ground arith))
        c.posterior_threshold
    ⊗ if_some-Decides _ _ (λ k. IsPositive-iff k _) c.dynamic_tree_max_top_k

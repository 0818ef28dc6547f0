-- ===== src/Llm/Sampling/Laws.antt =====
-- What `validate` of sampling.rs accepts, and what of a configuration arrives in the C++ shim.
use tensorrt_rs.Prelude.{
  ℕ, ℤ, String, true, false, not, List, [], ◌∷◌, Option, none, some, Result, ok, >>-eq-ok, reject,
  for_each_iff, >>-ok, reject-not_iff, All, any, length, ltb, take, ◌≡◌, ◌≢◌, ◌↔◌, refl, ap,
  ℤ-discrete, arith, if◌then◌else◌,
}
use tensorrt_rs.Prelude.Numbers.{is_finite, is_positive}
use tensorrt_rs.Llm.Errors.{
  Error, invalid_argument, num_return_sequences_not_positive, beam_width_array_not_positive,
}
use tensorrt_rs.Llm.Sampling.{
  SamplingConfig, is_some_not, float_options, check_finite, validate_sampling, as_sys,
  sampling_config, flag, int_or_zero, nat_or_zero, set_if, widths_or_empty,
}

-- A value that is set meets the test.
abbrev pub IfSet {ℓ} : {A : Type 0} → (A → Type ℓ) → Option A → Type ℓ
IfSet P none = Unit
IfSet P (some a) = P a

abbrev pub IsPositive : ℤ → Type 0
IsPositive n = is_positive n ≡ true

-- What a configuration must meet: positive widths and counts, and finite factors.
pub record IsValid (c : SamplingConfig) : Type 0 where
  pub beam_width : IsPositive c.beam_width
  pub top_p : IfSet (λ b. is_finite b ≡ true) c.top_p
  pub top_p_min : IfSet (λ b. is_finite b ≡ true) c.top_p_min
  pub top_p_decay : IfSet (λ b. is_finite b ≡ true) c.top_p_decay
  pub temperature : IfSet (λ b. is_finite b ≡ true) c.temperature
  pub beam_search_diversity_rate : IfSet (λ b. is_finite b ≡ true) c.beam_search_diversity_rate
  pub repetition_penalty : IfSet (λ b. is_finite b ≡ true) c.repetition_penalty
  pub presence_penalty : IfSet (λ b. is_finite b ≡ true) c.presence_penalty
  pub frequency_penalty : IfSet (λ b. is_finite b ≡ true) c.frequency_penalty
  pub length_penalty : IfSet (λ b. is_finite b ≡ true) c.length_penalty
  pub min_p : IfSet (λ b. is_finite b ≡ true) c.min_p
  pub num_return_sequences : IfSet IsPositive c.num_return_sequences
  pub beam_width_array : IfSet (All IsPositive) c.beam_width_array

finite_iff :
    (name : String) (o : Option ℕ)
    → (check_finite (name, o) ≡ ok tt) ↔ IfSet (λ b. is_finite b ≡ true) o
unfolding check_finite
finite_iff name none = (λ _. tt, λ _. refl)
finite_iff name (some b) = (λ h. ground arith, λ h. ground arith)

widths_iff : (ws : List ℤ) → (any (λ w. not (is_positive w)) ws ≡ false) ↔ All IsPositive ws
widths_iff [] = (λ _. tt, λ _. refl)
widths_iff (w ∷ ws) = (λ h. ground (arith, widths_iff ws), λ h. ground (arith, widths_iff ws))

taken : (ws : List ℤ) → take (length ws) ws ≡ ws
taken [] = refl
taken (w ∷ ws) = ap (◌∷◌ w) (taken ws)

set_int : (o : Option ℤ) → set_if (flag o) (int_or_zero o) ≡ o
unfolding ℤ-discrete
set_int none = refl
set_int (some n) = refl

set_nat : (o : Option ℕ) → set_if (flag o) (nat_or_zero o) ≡ o
unfolding ℤ-discrete
set_nat none = refl
set_nat (some n) = refl

-- The array of widths arrives if it is not empty.
widths_arrive :
    (o : Option (List ℤ))
    → o ≢ some []
    → ◌≡◌ {A = Result Error (Option (List ℤ))}
        (if ltb 0 (length (widths_or_empty o))
          then ok (some (take (length (widths_or_empty o)) (widths_or_empty o)))
          else ok none)
        (ok o)
widths_arrive none h = refl
widths_arrive (some []) h = absurd (h refl)
widths_arrive (some (w ∷ ws)) h = ground (arith, taken ws)

count_iff :
    (o : Option ℤ)
    → (reject (is_some_not is_positive o) (invalid_argument num_return_sequences_not_positive)
        ≡ ok tt)
      ↔ IfSet IsPositive o
count_iff none = (λ _. tt, λ _. refl)
count_iff (some n) = reject-not_iff (is_positive n) _

array_iff :
    (o : Option (List ℤ))
    → (reject
          (is_some_not (λ widths. not (any (λ w. not (is_positive w)) widths)) o)
          (invalid_argument beam_width_array_not_positive)
        ≡ ok tt)
      ↔ IfSet (All IsPositive) o
array_iff none = (λ _. tt, λ _. refl)
array_iff (some ws) = (λ h. ground (arith, widths_iff ws), λ h. ground (arith, widths_iff ws))

pub validate_sampling_iff : (c : SamplingConfig) → (validate_sampling c ≡ ok tt) ↔ IsValid c
unfolding validate_sampling float_options
validate_sampling_iff c = (
  λ h.
      let (w, h1) = >>-eq-ok _ _ h in
      let (f, h2) = >>-eq-ok _ _ h1 in
      let (r, a) = >>-eq-ok _ _ h2 in
      let fs = (for_each_iff check_finite (float_options c)).0 f in
      record {
        beam_width = (reject-not_iff _ _).0 w;
        top_p = (finite_iff _ _).0 fs.0;
        top_p_min = (finite_iff _ _).0 fs.1.0;
        top_p_decay = (finite_iff _ _).0 fs.1.1.0;
        temperature = (finite_iff _ _).0 fs.1.1.1.0;
        beam_search_diversity_rate = (finite_iff _ _).0 fs.1.1.1.1.0;
        repetition_penalty = (finite_iff _ _).0 fs.1.1.1.1.1.0;
        presence_penalty = (finite_iff _ _).0 fs.1.1.1.1.1.1.0;
        frequency_penalty = (finite_iff _ _).0 fs.1.1.1.1.1.1.1.0;
        length_penalty = (finite_iff _ _).0 fs.1.1.1.1.1.1.1.1.0;
        min_p = (finite_iff _ _).0 fs.1.1.1.1.1.1.1.1.1.0;
        num_return_sequences = (count_iff _).0 r;
        beam_width_array = (array_iff _).0 a;
      },
  λ v. >>-ok _ _ ((reject-not_iff _ _).1 v.beam_width) (
      >>-ok _ _
        ((for_each_iff check_finite (float_options c)).1 (
          (finite_iff _ _).1 v.top_p,
          (
            (finite_iff _ _).1 v.top_p_min,
            (
              (finite_iff _ _).1 v.top_p_decay,
              (
                (finite_iff _ _).1 v.temperature,
                (
                  (finite_iff _ _).1 v.beam_search_diversity_rate,
                  (
                    (finite_iff _ _).1 v.repetition_penalty,
                    (
                      (finite_iff _ _).1 v.presence_penalty,
                      (
                        (finite_iff _ _).1 v.frequency_penalty,
                        ((finite_iff _ _).1 v.length_penalty, ((finite_iff _ _).1 v.min_p, tt)),
                      ),
                    ),
                  ),
                ),
              ),
            ),
          ),
        ))
        (>>-ok _ _ ((count_iff _).1 v.num_return_sequences) ((array_iff _).1 v.beam_width_array))),
)

-- A configuration arrives in the shim as it was, each option with its value or unset, where its array
-- of widths, if it has one, is not empty.
pub sampling_config-as_sys :
    (c : SamplingConfig) → c.beam_width_array ≢ some [] → sampling_config (as_sys c) ≡ ok c
unfolding sampling_config as_sys
sampling_config-as_sys c h = simp (widths_arrive c.beam_width_array h, set_int, set_nat)

-- ===== src/Llm/Outputs/DecodeLaws.antt =====
-- `from_sys`, with and without a guard.
use tensorrt_rs.Prelude.{
  ℕ, ◌+◌, ◌*◌, ◌<◌, ◌≡◌, refl, sym, ◌∙◌, subst, Bool, true, false, List, [], ◌∷◌, ◌++◌, Option,
  Result, ok, ok_injected, ◌>>=◌, String, All, AllPairs, ◌==◌, nat_eq, int_eq, try_map,
  if◌then◌else◌,
}
use tensorrt_rs.Prelude.Pointers.{Pointer, is_null, from_raw_parts}
use tensorrt_rs.DataType.{DataType}
use tensorrt_rs.Tensor.{usize_mod}
use tensorrt_rs.Llm.DataTypes.{data_type_size}
use tensorrt_rs.Llm.Errors.{Error}
use tensorrt_rs.Llm.Outputs.Values.{TensorData, elem_count}
use tensorrt_rs.Llm.Outputs.ValueLaws.{product}
use tensorrt_rs.Llm.Outputs.Lazy.{RawOutputGuard, LazyTensor}
use tensorrt_rs.Llm.Outputs.LazyLaws.{
  Related, Holds, SameTensor, >>=-Related, same_first, from_owned-guards, from_typed_raw-guards,
}
use tensorrt_rs.Llm.Outputs.OffsetLaws.{offsets_in-guards}
use tensorrt_rs.Llm.Outputs.Sys.{OwnedTensor, NamedTensor, Output}
use tensorrt_rs.Llm.Outputs.Decode.{
  TensorOutput, ExecutorOutput, typed, offsets, owned, named_tensor, named_tensors, pushed,
  extended, when, tensor_outputs, from_sys, into_pair, into_pairs, assembled, finish_reasons,
  plain_name,
}

abbrev pub IsReadableTensor : OwnedTensor → Type 0
IsReadableTensor o = Holds o.contents o.byte_len

-- Each array of a response holds as many entries as the response says, and the numbers of sequences
-- are short of `usize::MAX`.
pub record IsReadable (raw : Output) : Type 0 where
  pub token_ids : Holds raw.token_ids (raw.token_count * 4)
  pub sequence_offsets : Holds raw.sequence_offsets (raw.sequence_count + 1)
  pub sequence_count : raw.sequence_count + 1 < usize_mod
  pub cum_log_probs : Holds raw.cum_log_probs (raw.cum_log_probs_count * 4)
  pub log_probs : Holds raw.log_probs (raw.log_prob_count * 4)
  pub log_prob_offsets : Holds raw.log_prob_offsets (raw.log_prob_sequence_count + 1)
  pub log_prob_sequence_count : raw.log_prob_sequence_count + 1 < usize_mod
  pub context_logits : IsReadableTensor raw.context_logits
  pub generation_logits : IsReadableTensor raw.generation_logits
  pub encoder_output : IsReadableTensor raw.encoder_output
  pub named_tensors :
      All
        (λ named. IsReadableTensor named.tensor)
        (from_raw_parts raw.named_tensors raw.named_tensor_count)

module _ {Tensor E : Type 0} (from_vec : TensorData → List ℕ → Result E Tensor)
    (made : (values : TensorData) (shape : List ℕ)
      → elem_count values ≡ product shape
      → (t : Tensor) × (from_vec values shape ≡ ok t)) where
  -- Two outputs of one name that become one tensor.
  abbrev SamePair : TensorOutput Tensor → TensorOutput Tensor → Type 0
  SamePair a b =
      (p : String × Tensor) × (into_pair from_vec a ≡ ok p) × (into_pair from_vec b ≡ ok p)

  abbrev SamePairs : List (TensorOutput Tensor) → List (TensorOutput Tensor) → Type 0
  SamePairs = AllPairs SamePair

  record Agree (m n : Result Error (List (TensorOutput Tensor))) : Type 0 where
    outputs : Related SamePairs m n

  named_same :
      (name : String) (m n : Result Error (LazyTensor Tensor))
      → Related (SameTensor from_vec made) m n
      → Related SamePair
          (m >>= λ lazy. ok (record { name = name; values = lazy }))
          (n >>= λ lazy. ok (record { name = name; values = lazy }))
  unfolding into_pair
  named_same name m n same =
      >>=-Related (SameTensor from_vec made) SamePair m n _ _ same
        λ a b (t, x, y). ((name, t), rw x, rw y)

  pushed_same :
      (m n : Result Error (TensorOutput Tensor)) (r s : Result Error (List (TensorOutput Tensor)))
      → Related SamePair m n
      → Agree r s
      → Agree (pushed m r) (pushed n s)
  unfolding pushed
  pushed_same m n r s first rest = record {
    outputs =
        >>=-Related SamePair SamePairs m n _ _ first
          λ a b p. >>=-Related SamePairs SamePairs r s _ _ rest.outputs λ cs ds ps. (p, ps);
  }

  nothing_more : Agree (ok []) (ok [])
  nothing_more = record { outputs = tt }

  when_same :
      (test : Bool) (r s : Result Error (List (TensorOutput Tensor)))
      → Agree r s
      → Agree (when test r) (when test s)
  when_same true r s same = same
  when_same false r s same = nothing_more

  if_same :
      (test : Bool) (m n r s : Result Error (List (TensorOutput Tensor)))
      → Related SamePairs m n
      → Related SamePairs r s
      → Related SamePairs (if test then m else r) (if test then n else s)
  if_same true m n r s same rest = same
  if_same false m n r s same rest = rest

  append_same :
      (xs ys us vs : List (TensorOutput Tensor))
      → SamePairs xs ys
      → SamePairs us vs
      → SamePairs (xs ++ us) (ys ++ vs)
  append_same [] [] us vs p q = q
  append_same [] (y ∷ ys) us vs p q = absurd p
  append_same (x ∷ xs) [] us vs p q = absurd p
  append_same (x ∷ xs) (y ∷ ys) us vs p q = (p.0, append_same xs ys us vs p.1 q)

  extended_same :
      (m n r s : Result Error (List (TensorOutput Tensor)))
      → Agree m n
      → Agree r s
      → Agree (extended m r) (extended n s)
  unfolding extended
  extended_same m n r s first rest = record {
    outputs = >>=-Related SamePairs SamePairs m n _ _ first.outputs λ xs ys p.
        >>=-Related SamePairs SamePairs r s _ _ rest.outputs λ us vs q. append_same xs ys us vs p q;
  }

  module _ (g g' : Option RawOutputGuard) where
    owned-guards :
        (name : String) (o : OwnedTensor)
        → IsReadableTensor o
        → Related SamePair (owned name o g) (owned name o g')
    unfolding owned
    owned-guards name o readable =
        named_same name _ _ (from_owned-guards from_vec made o g g' readable)

    when-owned :
        (test : Bool) (name : String) (o : OwnedTensor)
        → IsReadableTensor o
        → Agree
            (when test (pushed (owned name o g) (ok [])))
            (when test (pushed (owned name o g') (ok [])))
    when-owned test name o readable =
        when_same test _ _ (pushed_same _ _ _ _ (owned-guards name o readable) nothing_more)

    offsets-guards :
        (name : String) (p : Pointer (List ℕ)) (count data_count : ℕ)
        → count + 1 < usize_mod
        → Holds p (count + 1)
        → Related SamePair (offsets name p count data_count g) (offsets name p count data_count g')
    unfolding offsets
    offsets-guards name p count data_count fits holds =
        named_same name _ _ (offsets_in-guards from_vec made p count data_count g g' fits holds)

    typed-guards :
        (t : DataType) (name : String) (p : Pointer (List ℕ)) (count : ℕ) (shape : List ℕ)
        → data_type_size t ≡ ok 4
        → Holds p (count * 4)
        → Related SamePair (typed t name p count shape g) (typed t name p count shape g')
    unfolding typed
    typed-guards t name p count shape four holds = named_same name _ _ (
        from_typed_raw-guards from_vec made t p count shape g g'
          λ size h. subst (λ k. Holds p (count * k)) (ok_injected (sym four ∙ h)) holds)

    named_tensor-guards :
        (named : NamedTensor)
        → IsReadableTensor named.tensor
        → Related SamePair (named_tensor g named) (named_tensor g' named)
    unfolding named_tensor
    named_tensor-guards named readable =
        same_first SamePair _ _ _ λ name. owned-guards (plain_name name) named.tensor readable

    try_map-guards :
        (named : List NamedTensor)
        → All (λ n. IsReadableTensor n.tensor) named
        → Related SamePairs (try_map (named_tensor g) named) (try_map (named_tensor g') named)
    unfolding try_map
    try_map-guards [] readable = tt
    try_map-guards (n ∷ ns) (r, rs) =
        >>=-Related SamePair SamePairs (named_tensor g n) (named_tensor g' n) _ _
          (named_tensor-guards n r)
          λ a b p.
            >>=-Related SamePairs SamePairs (try_map (named_tensor g) ns)
              (try_map (named_tensor g') ns) _ _ (try_map-guards ns rs) λ cs ds ps. (p, ps)

    named_tensors-guards :
        (p : Pointer (List NamedTensor)) (count : ℕ)
        → All (λ n. IsReadableTensor n.tensor) (from_raw_parts p count)
        → Related SamePairs (named_tensors p count g) (named_tensors p count g')
    unfolding named_tensors
    named_tensors-guards p count readable =
        if_same (count == 0) _ _ _ _ tt
          (if_same (is_null p) _ _ _ _ tt (try_map-guards (from_raw_parts p count) readable))

    tensor_outputs-guards :
        (raw : Output) → IsReadable raw → Agree (tensor_outputs raw g) (tensor_outputs raw g')
    unfolding tensor_outputs data_type_size
    tensor_outputs-guards raw r =
        extended_same _ _ _ _
          (when_same _ _ _ (
            pushed_same _ _ _ _ (typed-guards DataType.int32 _ _ _ _ refl r.token_ids) (
              pushed_same _ _ _ _ (offsets-guards _ _ _ _ r.sequence_count r.sequence_offsets)
                nothing_more)))
          (extended_same _ _ _ _
            (when_same _ _ _ (
              pushed_same _ _ _ _ (typed-guards DataType.float _ _ _ _ refl r.cum_log_probs)
                nothing_more))
            (extended_same _ _ _ _
              (when_same _ _ _ (
                pushed_same _ _ _ _ (typed-guards DataType.float _ _ _ _ refl r.log_probs) (
                  pushed_same _ _ _ _
                    (offsets-guards _ _ _ _ r.log_prob_sequence_count r.log_prob_offsets)
                    nothing_more)))
              (extended_same _ _ _ _ (when-owned _ _ _ r.context_logits) (
                extended_same _ _ _ _ (when-owned _ _ _ r.generation_logits) (
                  extended_same _ _ _ _ (when-owned _ _ _ r.encoder_output)
                    (record { outputs = named_tensors-guards _ _ r.named_tensors }))))))

  pairs_same :
      (xs ys : List (TensorOutput Tensor))
      → SamePairs xs ys
      → (ts : List (String × Tensor)) × (try_map (into_pair from_vec) xs ≡ ok ts)
        × (try_map (into_pair from_vec) ys ≡ ok ts)
  unfolding try_map
  pairs_same [] [] p = ([], refl, refl)
  pairs_same [] (y ∷ ys) p = absurd p
  pairs_same (x ∷ xs) [] p = absurd p
  pairs_same (x ∷ xs) (y ∷ ys) ((t, u, v), ps) =
      let (ts, us, vs) = pairs_same xs ys ps in (t ∷ ts, rw (u, us), rw (v, vs))

  -- Two outputs that say the same and become the same named tensors, in the same order.
  pub record SameOutput (a b : ExecutorOutput Tensor) : Type 0 where
    pub tensors :
        (ts : List (String × Tensor)) × (into_pairs from_vec a ≡ ok ts)
        × (into_pairs from_vec b ≡ ok ts)
    pub is_final : a.is_final ≡ b.is_final
    pub finish_reasons : a.finish_reasons ≡ b.finish_reasons
    pub context_phase_params : a.context_phase_params ≡ b.context_phase_params
    pub spec_dec_fast_logits_info : a.spec_dec_fast_logits_info ≡ b.spec_dec_fast_logits_info
    pub sequence_index : a.sequence_index ≡ b.sequence_index
    pub is_sequence_final : a.is_sequence_final ≡ b.is_sequence_final

  -- A response whose arrays are as long as it says is accepted or refused with a guard as it is with
  -- another or with none, and the outputs that are accepted say the same: none of their tensors
  -- panics when it is made, late or at once, and they are the same tensors under the same names.
  -- Candle is taken to make a tensor of values that fill its shape.
  pub from_sys-guards :
      (raw : Output) (g g' : Option RawOutputGuard)
      → IsReadable raw
      → Related SameOutput (from_sys raw g) (from_sys raw g')
  unfolding from_sys into_pairs
  from_sys-guards raw g g' r =
      >>=-Related SamePairs SameOutput _ _ _ _ (tensor_outputs-guards g g' raw r).outputs λ xs ys p.
        same_first SameOutput (finish_reasons raw.finish_reasons raw.finish_reason_count) _ _
          λ reasons.
            same_first SameOutput _ (λ params. ok (assembled raw xs reasons params))
              (λ params. ok (assembled raw ys reasons params))
              λ params. record {
                tensors = pairs_same xs ys p;
                is_final = refl;
                finish_reasons = refl;
                context_phase_params = refl;
                spec_dec_fast_logits_info = refl;
                sequence_index = refl;
                is_sequence_final = refl;
              }

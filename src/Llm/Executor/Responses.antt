-- ===== src/Llm/Executor/Responses.antt =====
-- executor.rs: a run of a prepared request without preallocated outputs, and its response. The native
-- executor is a function of the request that it is handed.
use tensorrt_rs.Prelude.{
  ℕ, ◌≡◌, ◌≢◌, refl, ap, ◌∙◌, subst, ℤ, pos, String, Bool, false, not, Bool-cases, List, [], ◌∷◌,
  ◌++◌, find, Option, none, some, Result, ok, err, ◌>>=◌, >>=-eq-ok, ok_or, All, inl, inr, ◌==◌,
  nat_eq, int_eq, ==_iff, arith, if◌then◌else◌,
}
use tensorrt_rs.Prelude.Pointers.{Pointer, null, at, is_null, from_raw_parts}
use tensorrt_rs.Llm.Errors.{Error, executor}
use tensorrt_rs.Llm.Config.{ValidationProfile}
use tensorrt_rs.Llm.Requests.{Request}
use tensorrt_rs.Llm.Executor.Sys.{SysRequest}
use tensorrt_rs.Llm.Executor.Tensors.{Candle}
use tensorrt_rs.Llm.Executor.Buffers.{RequestBuffers, recycle}
use tensorrt_rs.Llm.Executor.Prepare.{prepare_request}
use tensorrt_rs.Llm.Outputs.Lazy.{RawOutputGuard}
use tensorrt_rs.Llm.Outputs.Sys as Outputs
use tensorrt_rs.Llm.Outputs.Decode.{ExecutorOutput, from_sys, then_some}

pub record Response (Tensor : Type 0) : Type 0 where
  pub request_id : ℕ
  pub client_id : Option ℕ
  pub output : ExecutorOutput Tensor
  pub raw_output : Option RawOutputGuard

-- What the native call wrote through its pointers.
pub record NativeRun : Type 0 where
  pub status : ℤ
  pub responses : Pointer (List Outputs.Response)
  pub response_count : ℕ
  pub error : Pointer String

unfoldable pub take_error : Pointer String → Error
take_error null = executor "unknown TensorRT-LLM Executor error"
take_error (at message) = executor message

unfoldable pub is_final_response : Outputs.Response → Bool
is_final_response raw = not (raw.output.is_final == pos 0)

module _ {Tensor : Type 0} where
  unfoldable pub response_from_sys :
      Outputs.Response → Option RawOutputGuard → Result Error (Response Tensor)
  unfolding from_sys
  response_from_sys raw raw_output = from_sys raw.output raw_output >>= λ output. ok (record {
    request_id = raw.request_id;
    client_id = then_some raw.has_client_id raw.client_id;
    output = output;
    raw_output = raw_output;
  })

  unfoldable pub decoded :
      RawOutputGuard → Option Outputs.Response → Result Error (Option (Response Tensor))
  unfolding response_from_sys
  decoded guard none = ok none
  decoded guard (some response) = response_from_sys response (some guard) >>= λ r. ok (some r)

  -- The guard is what keeps the responses from being freed.
  unfoldable pub final_response_from_sys :
      RawOutputGuard → Pointer (List Outputs.Response) → ℕ → Result Error (Option (Response Tensor))
  unfolding is_final_response decoded
  final_response_from_sys guard raw count =
      if count == 0
      then ok none
      else if is_null raw
      then err (executor "TensorRT-LLM Executor returned a null response pointer")
      else decoded guard (find is_final_response (from_raw_parts raw count))

  unfoldable pub run_prepared_with_sink :
      RawOutputGuard → NativeRun → Result Error (Response Tensor)
  unfolding take_error final_response_from_sys
  run_prepared_with_sink guard run =
      if not (run.status == pos 0)
      then err (take_error run.error)
      else (final_response_from_sys guard run.responses run.response_count >>= λ found.
          ok_or found (executor "TensorRT-LLM Executor returned no final response"))

  -- The prepared request is dropped at the end, error or not, and its buffers go back to the pool.
  unfoldable pub run_prepared :
      (SysRequest → NativeRun)
      → RawOutputGuard
      → List RequestBuffers
      → Result Error (SysRequest × RequestBuffers × List RequestBuffers)
      → Result Error (Response Tensor) × List RequestBuffers
  unfolding run_prepared_with_sink recycle
  run_prepared native guard pool (err e) = (err e, pool)
  run_prepared native guard pool (ok (sys_request, buffers, rest)) =
      (run_prepared_with_sink guard (native sys_request), recycle buffers rest)

  unfoldable pub run :
      Candle Tensor
      → ValidationProfile
      → (SysRequest → NativeRun)
      → RawOutputGuard
      → List RequestBuffers
      → Request Tensor
      → Result Error (Response Tensor) × List RequestBuffers
  unfolding prepare_request run_prepared
  run candle profile native guard pool request =
      run_prepared native guard pool (prepare_request candle profile pool request)

later :
    (x : Outputs.Response) (xs : List Outputs.Response) {raw : Outputs.Response}
    → find is_final_response (x ∷ xs) ≡ some raw
    → is_final_response x ≡ false
    → find is_final_response xs ≡ some raw
later x xs h m = ground arith

-- A response that is found stands behind those that are not final.
found_first :
    (xs : List Outputs.Response) {raw : Outputs.Response}
    → find is_final_response xs ≡ some raw
    → (before : List Outputs.Response) × (after : List Outputs.Response) × (xs
        ≡ before ++ (raw ∷ after))
      × All (λ r. r.output.is_final ≡ pos 0) before
      × (raw.output.is_final ≢ pos 0)
unfolding is_final_response
found_first [] h = absurd (cc)
found_first (x ∷ xs) {raw} h = elim (Bool-cases (is_final_response x)) [
  | inl m ↦
      let same : x ≡ raw = ground arith in
      (
        [],
        xs,
        ap (λ r. r ∷ xs) same,
        tt,
        subst (λ r. r.output.is_final ≢ pos 0) same
            (λ z. absurd (ground (arith, ==_iff x.output.is_final (pos 0)))),
      )
  | inr m ↦
      let (before, after, e, plain, last) = found_first xs (later x xs h m) in
      (
        x ∷ before,
        after,
        ap (◌∷◌ x) e,
        (ground (arith, ==_iff x.output.is_final (pos 0)), plain),
        last,
      )
]

module _ {Tensor : Type 0} where
  -- What the first final response among those that are read is made into.
  abbrev pub IsFirst :
      RawOutputGuard → Pointer (List Outputs.Response) → ℕ → Response Tensor → Type 0
  IsFirst guard raw count response =
      (first : Outputs.Response) × (before : List Outputs.Response) × (after : List
        Outputs.Response)
      × (from_raw_parts raw count ≡ before ++ (first ∷ after))
      × All (λ r. r.output.is_final ≡ pos 0) before
      × (first.output.is_final ≢ pos 0)
      × (response_from_sys first (some guard) ≡ ok response)

  decoded-IsFirst :
      (guard : RawOutputGuard) (raw : Pointer (List Outputs.Response)) (count : ℕ)
      (found : Option Outputs.Response) {response : Response Tensor}
      → find is_final_response (from_raw_parts raw count) ≡ found
      → decoded guard found ≡ ok (some response)
      → IsFirst guard raw count response
  unfolding decoded
  decoded-IsFirst guard raw count none e h = absurd (cc)
  decoded-IsFirst guard raw count (some first) e h =
      let (r, made, same) = >>=-eq-ok (response_from_sys first (some guard)) _ h in
      let (before, after, split, plain, last) = found_first (from_raw_parts raw count) e in
      (first, before, after, split, plain, last, made ∙ ground arith)

  final_response-IsFirst :
      (guard : RawOutputGuard) (raw : Pointer (List Outputs.Response)) (count : ℕ)
      {response : Response Tensor}
      → final_response_from_sys guard raw count ≡ ok (some response)
      → IsFirst guard raw count response
  unfolding final_response_from_sys
  final_response-IsFirst guard raw count h =
      decoded-IsFirst guard raw count (find is_final_response (from_raw_parts raw count)) refl
        (ground arith)

  -- Where a run gives a response, the executor reported no error, and the response is made of the
  -- first of its responses that is final: those before it are not.
  pub run_prepared_with_sink-IsFirst :
      (guard : RawOutputGuard) (native : NativeRun) {response : Response Tensor}
      → run_prepared_with_sink guard native ≡ ok response
      → (native.status ≡ pos 0) × IsFirst guard native.responses native.response_count response
  unfolding run_prepared_with_sink
  run_prepared_with_sink-IsFirst guard native h = elim (Bool-cases (native.status == pos 0)) [
    | inr m ↦ absurd (ground arith)
    | inl m ↦ (
      (==_iff native.status (pos 0)).0 m,
      final_response-IsFirst guard native.responses native.response_count (ground arith),
    )
  ]

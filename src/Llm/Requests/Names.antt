-- ===== src/Llm/Requests/Names.antt =====
-- request.rs: which outputs a request asks for by the names of preallocated tensors.
use Prim.Native.Char.{code}
use tensorrt_rs.Prelude.{
  String, Bool, true, ◌||◌, List, [], ◌∷◌, ◌++◌, Result, ok, err, ◌>>=◌, any, ◌==◌, string_eq,
  nat_eq, false, arith, refl, subst, ok_injected, >>=-eq-ok, if◌then◌else◌, ◌≡◌,
}
use tensorrt_rs.Llm.Errors.{Error, panicked}
use tensorrt_rs.Llm.Requests.{Request}

has_nul : String → Bool
has_nul String.[] = false
has_nul (String.◌∷◌ c s) = code c == 0 || has_nul s

-- string.rs: the `assert!` ends the program.
unfoldable pub cstring : String → Result Error String
unfolding has_nul
cstring value = if has_nul value then err panicked else ok value

module _ {Tensor : Type 0} where
  unfoldable pub push_additional_output : Request Tensor → String → Result Error (Request Tensor)
  unfolding cstring
  push_additional_output r name =
      if any (λ existing. existing == name) r.additional_outputs
      then ok r
      else (cstring name >>= λ kept.
          ok (record r { additional_outputs = r.additional_outputs ++ (kept ∷ []) }))

  unfoldable pub infer_output_tensor_name : Request Tensor → String → Result Error (Request Tensor)
  unfolding push_additional_output
  infer_output_tensor_name r name =
      if name == "context_logits"
      then ok (record r { return_context_logits = true })
      else if name == "generation_logits"
      then ok (record r { return_generation_logits = true })
      else if name == "encoder_output"
      then ok (record r { return_encoder_output = true })
      else push_additional_output r name

  -- executor.rs, `run`: each name of the sink, in order.
  unfoldable pub infer_output_tensor_names :
      Request Tensor → List String → Result Error (Request Tensor)
  unfolding infer_output_tensor_name
  infer_output_tensor_names r [] = ok r
  infer_output_tensor_names r (name ∷ names) =
      infer_output_tensor_name r name >>= λ r'. infer_output_tensor_names r' names

-- No name of the list stands in it again.
abbrev pub IsFresh : String → List String → Type 0
IsFresh name names = any (λ existing. existing == name) names ≡ false

abbrev pub NoDuplicates : List String → Type 0
NoDuplicates [] = Unit
NoDuplicates (name ∷ names) = IsFresh name names × NoDuplicates names

IsFresh-append :
    (name new : String) (names : List String)
    → IsFresh name names
    → (name == new) ≡ false
    → IsFresh name (names ++ (new ∷ []))
IsFresh-append name new [] h n = ground arith
IsFresh-append name new (x ∷ xs) h n = ground (arith, IsFresh-append name new xs)

NoDuplicates-append :
    (names : List String) (new : String)
    → NoDuplicates names
    → IsFresh new names
    → NoDuplicates (names ++ (new ∷ []))
NoDuplicates-append [] new d f = (refl, tt)
NoDuplicates-append (x ∷ xs) new (fresh, d) f =
    (ground (arith, IsFresh-append x new xs), ground (arith, NoDuplicates-append xs new))

push-NoDuplicates :
    {Tensor : Type 0} (r : Request Tensor) (name : String) {r' : Request Tensor}
    → push_additional_output r name ≡ ok r'
    → NoDuplicates r.additional_outputs
    → NoDuplicates r'.additional_outputs
unfolding push_additional_output cstring
push-NoDuplicates r name h d = ground (arith, NoDuplicates-append r.additional_outputs name)

infer-NoDuplicates :
    {Tensor : Type 0} (r : Request Tensor) (name : String) {r' : Request Tensor}
    → infer_output_tensor_name r name ≡ ok r'
    → NoDuplicates r.additional_outputs
    → NoDuplicates r'.additional_outputs
unfolding infer_output_tensor_name
infer-NoDuplicates r name {r' = r'} h d = ground (arith, push-NoDuplicates r name {r' = r'})

-- Whatever names the tensors of a sink have, also one name more than once, no additional output is
-- asked for twice if none was before.
pub infer_output_tensor_names-NoDuplicates :
    {Tensor : Type 0} (names : List String) (r : Request Tensor) {r' : Request Tensor}
    → infer_output_tensor_names r names ≡ ok r'
    → NoDuplicates r.additional_outputs
    → NoDuplicates r'.additional_outputs
unfolding infer_output_tensor_names
infer_output_tensor_names-NoDuplicates [] r h d =
    subst (λ q. NoDuplicates q.additional_outputs) (ok_injected h) d
infer_output_tensor_names-NoDuplicates (name ∷ names) r h d =
    let (r1, e, h1) = >>=-eq-ok (infer_output_tensor_name r name) _ h in
    infer_output_tensor_names-NoDuplicates names r1 h1 (infer-NoDuplicates r name e d)

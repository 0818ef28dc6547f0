-- ===== src/Llm/Executor/Prepared.antt =====
-- What a prepared request holds: its words, and nothing of the requests before it.
use tensorrt_rs.Prelude.{
  ◌<◌, ◌≡◌, refl, ap, subst, List, [], ◌∷◌, Option, none, some, ok, >>=-eq-ok, >>-eq-ok,
  ok_injected, arith, All, is_empty, if◌then◌else◌,
}
use tensorrt_rs.Tensor.{usize_mod}
use tensorrt_rs.Llm.Sampling.Laws.{IfSet}
use tensorrt_rs.Llm.Config.{ValidationProfile}
use tensorrt_rs.Llm.Requests.{Request, MultimodalInput, EagleConfig}
use tensorrt_rs.Llm.Executor.Validate.{validate_request}
use tensorrt_rs.Llm.Executor.Parts.{IsEagle, IsMultimodal}
use tensorrt_rs.Llm.Executor.Accepted.{validate_request_iff, IsAccepted}
use tensorrt_rs.Llm.Executor.Words.{replace_words, clear_words, word_list, nested_tokens}
use tensorrt_rs.Llm.Executor.WordLaws.{word_list-replace_words, nested_tokens-replace_words}
use tensorrt_rs.Llm.Executor.Sys.{SysRequest, no_eagle_config, no_multimodal_input}
use tensorrt_rs.Llm.Executor.Tensors.{Candle}
use tensorrt_rs.Llm.Executor.Buffers.{
  RequestBuffers, empty_buffers, clear_buffers, fill_eagle, fill_multimodal, fill_buffers, checkout,
  recycle,
}
use tensorrt_rs.Llm.Executor.Structure.{
  request_as_sys, RequestTensors, map_or, eagle_as_sys, multimodal_as_sys,
}
use tensorrt_rs.Llm.Executor.Prepare.{request_tensors, prepare_request}

-- A pool as the requests of a program leave it: each takes a buffer out, and gives it back or not.
pub data Reachable : List RequestBuffers → Type 0 where
  start : Reachable []
  taken : {pool : List RequestBuffers} → Reachable pool → Reachable (checkout pool).1
  given :
      {pool : List RequestBuffers}
      → Reachable pool
      → (b : RequestBuffers) → Reachable (recycle b pool)

abbrev IsCleared : RequestBuffers → Type 0
IsCleared b = b ≡ empty_buffers

clear_buffers-empty : (b : RequestBuffers) → clear_buffers b ≡ empty_buffers
unfolding clear_buffers clear_words
clear_buffers-empty b = refl

checkout-IsCleared :
    (pool : List RequestBuffers)
    → All IsCleared pool
    → IsCleared (checkout pool).0 × All IsCleared (checkout pool).1
unfolding checkout
checkout-IsCleared [] h = (refl, tt)
checkout-IsCleared (b ∷ pool) (h, hs) = (h, hs)

Reachable-IsCleared : {pool : List RequestBuffers} → Reachable pool → All IsCleared pool
unfolding recycle
Reachable-IsCleared start = tt
Reachable-IsCleared (taken {pool = pool} r) = (checkout-IsCleared pool (Reachable-IsCleared r)).1
Reachable-IsCleared (given r b) = (clear_buffers-empty b, Reachable-IsCleared r)

-- A buffer that is taken from the pool is like a new one.
pub Reachable-checkout :
    (pool : List RequestBuffers) → Reachable pool → (checkout pool).0 ≡ (checkout []).0
unfolding checkout
Reachable-checkout pool r = (checkout-IsCleared pool (Reachable-IsCleared r)).0

-- Each fill leaves the buffers of the others alone.
fill_buffers-words :
    {Tensor : Type 0} (request : Request Tensor) (b : RequestBuffers)
    → ((fill_buffers request b).bad_words ≡ replace_words request.bad_words b.bad_words)
      × ((fill_buffers request b).stop_words ≡ replace_words request.stop_words b.stop_words)
      × ((fill_buffers request b).eagle_choices ≡ (fill_eagle request.eagle_config b).eagle_choices)
      × ((fill_buffers request b).multimodal_hashes
          ≡ (fill_multimodal request.multimodal_input b).multimodal_hashes)
unfolding fill_buffers
fill_buffers-words request b = ground arith

module _ {Tensor : Type 0} (candle : Candle Tensor) (profile : ValidationProfile) where
  -- Each list of words in the structure, as the shim reads it.
  abbrev pub ArrivedWords : Request Tensor → SysRequest → Type 0
  ArrivedWords request sys =
      (word_list sys.bad_words
        ≡ ok (if is_empty request.bad_words then none else some request.bad_words))
      × (word_list sys.stop_words
          ≡ ok (if is_empty request.stop_words then none else some request.stop_words))
      × IfSet (λ (c : EagleConfig). nested_tokens sys.eagle_config.choices ≡ ok c.choices)
          request.eagle_config
      × IfSet (λ (m : MultimodalInput). nested_tokens sys.multimodal_input.hashes ≡ ok m.hashes)
          request.multimodal_input

  eagle_arrived :
      (o : Option EagleConfig) (b filled : RequestBuffers)
      → filled.eagle_choices ≡ (fill_eagle o b).eagle_choices
      → IfSet IsEagle o
      → IfSet
          (λ (c : EagleConfig).
            nested_tokens (map_or no_eagle_config (eagle_as_sys filled) o).choices ≡ ok c.choices)
          o
  eagle_arrived none b filled same h = tt
  eagle_arrived (some c) b filled same h =
      rw same (nested_tokens-replace_words b.eagle_choices c.choices h.0)

  multimodal_arrived :
      (o : Option MultimodalInput) (b filled : RequestBuffers)
      → filled.multimodal_hashes ≡ (fill_multimodal o b).multimodal_hashes
      → IfSet IsMultimodal o
      → IfSet
          (λ (m : MultimodalInput).
            nested_tokens (map_or no_multimodal_input (multimodal_as_sys filled) o).hashes
            ≡ ok m.hashes)
          o
  multimodal_arrived none b filled same h = tt
  multimodal_arrived (some m) b filled same h =
      rw same (nested_tokens-replace_words b.multimodal_hashes m.hashes h.0)

  arrived :
      (request : Request Tensor) (tensors : RequestTensors) (b : RequestBuffers)
      → IsAccepted profile request
      → ArrivedWords request (request_as_sys profile request tensors (fill_buffers request b))
  unfolding request_as_sys
  arrived request tensors b a =
      let (bad, stop, eagle, hashes) = fill_buffers-words request b in
      (
        rw bad (word_list-replace_words b.bad_words request.bad_words a.bad_words),
        rw stop (word_list-replace_words b.stop_words request.stop_words a.stop_words),
        eagle_arrived request.eagle_config b (fill_buffers request b) eagle a.eagle,
        multimodal_arrived request.multimodal_input b (fill_buffers request b) hashes a.multimodal,
      )

  -- Of a request that is prepared, whatever the pool holds, the shim reads the words that were given:
  -- bad words and stop words, none where there are none, and the choices and hashes of the
  -- configurations that are set. The engine's limit of tokens is a `usize`.
  pub prepare_request-words :
      (pool : List RequestBuffers) (request : Request Tensor) {sys : SysRequest}
      {filled : RequestBuffers} {rest : List RequestBuffers}
      → profile.max_num_tokens < usize_mod
      → prepare_request candle profile pool request ≡ ok (sys, filled, rest)
      → ArrivedWords request sys
  unfolding prepare_request
  prepare_request-words pool request fits h =
      let (v, h1) = >>-eq-ok (validate_request profile request) _ h in
      let (tensors, t, h2) = >>=-eq-ok (request_tensors candle profile request) _ h1 in
      subst (ArrivedWords request) (ap (λ p. p.0) (ok_injected h2)) (
        arrived request tensors (checkout pool).0 ((validate_request_iff profile request fits).0 v))

-- ===== src/Session/GraphBound.antt =====
-- The cache of CUDA graphs through `enqueue_device_auto_graph`.
use tensorrt_rs.Prelude.{◌≡◌, ◌≤◌, refl, length}
use tensorrt_rs.Engine.{Driver, ExecutionContext}
use tensorrt_rs.Session.State.{Session, cuda_graph_key_eq, max_cache_entries}
use tensorrt_rs.Session.Pool.{return_context}

module _ {Raw Gpu : Type 0} (d : Driver Raw Gpu) where
  return_keeps :
      (c : ExecutionContext Raw) (s : Session Raw Gpu)
      → (return_context d c s).cuda_graph_cache ≡ s.cuda_graph_cache
  unfolding return_context
  return_keeps c s = refl

  -- The cache does not outgrow its limit.
  abbrev IsBounded : Session Raw Gpu → Type 0
  IsBounded s = length s.cuda_graph_cache ≤ max_cache_entries

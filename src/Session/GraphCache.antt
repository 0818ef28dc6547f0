-- ===== src/Session/GraphCache.antt =====
-- The cache of CUDA graphs (`cache_cuda_graph`).
use tensorrt_rs.Prelude.{
  refl, Result-cases, ok, ℕ, zero, suc, ◌%◌, ◌≡◌, ◌≢◌, ◌≤◌, ◌<◌, none, some, arith, List, [], ◌∷◌,
  Option-cases, inl, inr, length, get_elem?, ◌==◌, Bool-cases, leb, ==_refl, ==_iff, false, ◌⊎◌, ap,
}
use tensorrt_rs.Prelude.Maps.{
  lookup, erase, lookup-insert, lookup-erase, length-insert-le, length-insert_old, length-erase-lt,
}
use tensorrt_rs.Session.State.{
  Session, CudaGraphKey, cuda_graph_key_eq, CudaGraphEntry, max_cache_entries,
}
use tensorrt_rs.Tensor.{DeviceInputTensor, DeviceOutputTensor}
use tensorrt_rs.Engine.{Driver, ExecutionContext, CudaStream, capture, enqueue_v3}
use tensorrt_rs.Session.Graph.{
  bind_device_tensors_on_context, capture_device_graph, first_key, cache_cuda_graph,
}

abbrev pub Cache : Type 0 → Type 0
Cache Raw = List (CudaGraphKey × CudaGraphEntry Raw)

module _ {Raw : Type 0} where
  lookup_of_position :
      (m : Cache Raw) (i : ℕ) (k : CudaGraphKey) (e : CudaGraphEntry Raw)
      → get_elem? m i ≡ some (k, e)
      → (v : CudaGraphEntry Raw) × (lookup k m ≡ some v)
  unfolding lookup
  lookup_of_position [] i k e h = absurd (cc)
  lookup_of_position ((j, w) ∷ m) zero k e h = (w, ground (arith, ==_refl k))
  lookup_of_position ((j, w) ∷ m) (suc i) k e h = elim (Bool-cases (j == k)) [
    | inl s ↦ (w, rw s)
    | inr n ↦ let (v, l) = lookup_of_position m i k e h in (v, rw n l)
  ]

  get_elem?_total : (m : Cache Raw) (i : ℕ) → i < length m → get_elem? m i ≢ none
  get_elem?_total [] i h e = absurd (omega arith)
  get_elem?_total (x ∷ m) zero h e = cc
  get_elem?_total (x ∷ m) (suc i) h e = get_elem?_total m i (omega arith) e

  -- A cache that is not empty has a first key, and it is a key of the cache.
  first_key_lem :
      (order : ℕ) (m : Cache Raw)
      → 0 < length m
      → (k : CudaGraphKey) × (v : CudaGraphEntry Raw) × (first_key order m ≡ some k)
        × (lookup k m ≡ some v)
  unfolding first_key
  first_key_lem order m h = elim (Option-cases (get_elem? m (order % length m))) [
    | inl e ↦ absurd (get_elem?_total m (order % length m) (grind arith) e)
    | inr ((k, w), e) ↦
        let (v, l) = lookup_of_position m (order % length m) k w e in (k, v, rw (e, first_key), l)
  ]

  -- A cache within the limit stays within it when a graph is cached.
  pub length-cache_cuda_graph :
      (order : ℕ) (key : CudaGraphKey) (entry : CudaGraphEntry Raw) (m : Cache Raw)
      → length m ≤ max_cache_entries
      → length (cache_cuda_graph order key entry m) ≤ max_cache_entries
  unfolding cache_cuda_graph
  length-cache_cuda_graph order key entry m h =
      elim (Bool-cases (leb max_cache_entries (length m))) [
        | inr room ↦ rw (room, cache_cuda_graph) (ground (arith, length-insert-le key entry m))
        | inl full ↦ elim (Option-cases (lookup key m)) [
          | inr (old, e) ↦
              rw (full, e, cache_cuda_graph) (omega (arith, length-insert_old key entry old m e))
          | inl e ↦
              let (k, v, first, l) = first_key_lem order m (ground arith) in
              rw (full, e, first, cache_cuda_graph)
                (omega (arith, length-erase-lt k v m l, length-insert-le key entry (erase k m)))
        ]
      ]

  lookup-cache_cuda_graph_same :
      (order : ℕ) (key : CudaGraphKey) (entry : CudaGraphEntry Raw) (m : Cache Raw)
      → lookup key (cache_cuda_graph order key entry m) ≡ some entry
  unfolding cache_cuda_graph
  lookup-cache_cuda_graph_same order key entry m = simp (lookup-insert, ==_refl)

  -- The graph of `other` makes room for one of `key`.
  abbrev pub MakesRoom : ℕ → CudaGraphKey → CudaGraphKey → Cache Raw → Type 0
  MakesRoom order key other m =
      (max_cache_entries ≤ length m) × (lookup key m ≡ none) × (first_key order m ≡ some other)

  -- When a graph is cached, every other graph stays where it is, but for the one under the first key
  -- of a cache that is full and has no graph of that key yet: that one is gone.
  pub lookup-cache_cuda_graph :
      (order : ℕ) (key other : CudaGraphKey) (entry : CudaGraphEntry Raw) (m : Cache Raw)
      → key ≢ other
      → let found = lookup other (cache_cuda_graph order key entry m) in
        ((found ≡ lookup other m) × ¬ MakesRoom order key other m)
        ⊎ ((found ≡ none) × MakesRoom order key other m)
  unfolding cache_cuda_graph
  lookup-cache_cuda_graph order key other entry m ne =
      let apart : (key == other) ≡ false = ground (arith, ==_iff key other) in
      elim (Bool-cases (leb max_cache_entries (length m))) [
        | inr room ↦
            rw (room, cache_cuda_graph)
              (inl (
                ground (arith, lookup-insert key other entry m, apart),
                λ h. ground (arith, room, h.0),
              ))
        | inl full ↦ elim (Option-cases (lookup key m)) [
          | inr (old, e) ↦
              rw (full, e, cache_cuda_graph)
                (inl (
                  ground (arith, lookup-insert key other entry m, apart),
                  λ h. ground (arith, e, h.1),
                ))
          | inl e ↦
              let (k, v, first, l) = first_key_lem order m (ground arith) in
              elim (Bool-cases (k == other)) [
                | inl same ↦
                    let it : k ≡ other = (==_iff k other).0 same in
                    rw (full, e, first, cache_cuda_graph)
                      (inr (
                        ground (
                          arith,
                          apart,
                          same,
                          lookup-insert key other entry (erase k m),
                          lookup-erase k other m,
                        ),
                        (ground (arith, full), refl, ap some it),
                      ))
                | inr differs ↦
                    rw (full, e, first, cache_cuda_graph)
                      (inl (
                        ground (
                          arith,
                          apart,
                          differs,
                          lookup-insert key other entry (erase k m),
                          lookup-erase k other m,
                        ),
                        λ h. ground (arith, first, h.2, differs, ==_refl k),
                      ))
              ]
        ]
      ]

-- A capture that succeeds leaves a graph under its key, so the look-up that follows it in
-- `enqueue_device_auto_graph` finds one; the graph holds the context that was captured, and a
-- cache within the limit stays within it.
pub capture_device_graph-lookup :
    {Raw Gpu : Type 0} (d : Driver Raw Gpu) (order : ℕ) (inputs : List DeviceInputTensor)
    (outputs : List DeviceOutputTensor) (stream : CudaStream) (key : CudaGraphKey)
    (c : ExecutionContext Raw) (s : Session Raw Gpu)
    → (capture_device_graph d order inputs outputs stream key (c, s)).0 ≡ ok tt
    → length s.cuda_graph_cache ≤ max_cache_entries
    → let (c', s') = (capture_device_graph d order inputs outputs stream key (c, s)).1 in
      (entry : CudaGraphEntry Raw) × (lookup key s'.cuda_graph_cache ≡ some entry)
      × (entry.context ≡ c')
      × (length s'.cuda_graph_cache ≤ max_cache_entries)
unfolding capture_device_graph
capture_device_graph-lookup d order inputs outputs stream key c s h room =
    let bound = bind_device_tensors_on_context d inputs outputs c in
    elim (Result-cases bound.0) [
      | inr (e, bad) ↦ absurd (ground arith)
      | inl (_, good) ↦
          let done = capture d stream (enqueue_v3 d stream) (bound.1, s.gpu) in
          elim (Result-cases done.0) [
            | inr (e, bad) ↦ absurd (ground arith)
            | inl (exec, captured) ↦
                let entry : CudaGraphEntry _ = record { context = done.1.0; exec = exec } in
                rw (good, captured, capture_device_graph)
                  (
                    entry,
                    lookup-cache_cuda_graph_same order key entry s.cuda_graph_cache,
                    refl,
                    length-cache_cuda_graph order key entry s.cuda_graph_cache room,
                  )
          ]
    ]

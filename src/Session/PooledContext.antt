-- ===== src/Session/PooledContext.antt =====
-- What a context is like that comes from `pooled_execution_context`, new or used before.
use tensorrt_rs.Prelude.{
  ◌≡◌, refl, sym, subst, List, [], ◌∷◌, ◌++◌, map, none, some, ok, err, Result, Result-cases,
  Option-cases, inl, inr, All, arith, length,
}
use tensorrt_rs.Prelude.Exec.{Exec, ◌>>◌, continue}
use tensorrt_rs.Prelude.Vectors.{pop, pop-All}
use tensorrt_rs.Errors.{Error}
use tensorrt_rs.Tensor.{TensorInfo}
use tensorrt_rs.Engine.{Driver, ExecutionContext, create_execution_context}
use tensorrt_rs.Engine.Laws.{AddressLaws, ShapeLaws}
use tensorrt_rs.Engine.ShapeCache.{IsCoherent}
use tensorrt_rs.Session.State.{IoTensors, Session, InFlightContext, InFlightGraph}
use tensorrt_rs.Session.Pool.{
  Reclaim, reclaim_loop, clear_tensor_addresses, take_context, pooled_execution_context,
  reclaim_finished_contexts, reclaim_finished_graphs,
}
use tensorrt_rs.Session.ReclaimLoop.{reclaim_loop-All}
use tensorrt_rs.Session.Reclaim.{
  event_of, in_flight_start, contexts_loop, given_back, reclaim_finished_contexts-given_back,
}
use tensorrt_rs.Session.CleanContext.{clear_tensor_addresses-IsCoherent}

All-append : {A : Type 0} (P : A → Type 0) (xs ys : List A) → All P xs → All P ys → All P (xs ++ ys)
All-append P [] ys h k = k
All-append P (x ∷ xs) ys h k = (h.0, All-append P xs ys h.1 k)

All-map :
    {A B : Type 0} (P : B → Type 0) (f : A → B) (xs : List A)
    → All (λ x. P (f x)) xs
    → All P (map f xs)
All-map P f [] h = tt
All-map P f (x ∷ xs) h = (h.0, All-map P f xs h.1)

-- A call and what follows it, where the call keeps an invariant however it ends.
continue-keeps :
    {S B : Type 0} (Inv : S → Type 0) (Q : Result Error B × S → Type 0) (k : Exec S Error B)
    (m : Exec S Error (Unit {0})) (s : S)
    → Inv (m s).1
    → ((e : Error) (s' : S) → Inv s' → Q (err e, s'))
    → ((s' : S) → Inv s' → Q (k s'))
    → Q ((m >> k) s)
continue-keeps Inv Q k m s h bad good = cases (m s).0 (m s).1 h
  where
    cases : (r : Result Error (Unit {0})) (s' : _) → Inv s' → Q (continue r (λ _. k) s')
    cases (ok _) s' i = good s' i
    cases (err e) s' i = bad e s' i

module _ {Raw Gpu : Type 0} (d : Driver Raw Gpu) (laws : AddressLaws d) (shapes : ShapeLaws d) where
  -- No tensor has an address, and the input shapes that are remembered are in effect.
  abbrev pub IsClean : IoTensors → ExecutionContext Raw → Type 0
  IsClean io c =
      All (λ t. AddressLaws.address laws c.raw t.name ≡ 0) io.io_tensors × IsCoherent d shapes c

  -- The contexts of a session, pooled or in flight, remember shapes that are in effect.
  abbrev pub AllCoherent : Session Raw Gpu → Type 0
  AllCoherent s =
      All (IsCoherent d shapes) s.context_pool
      × All (λ (x : InFlightContext Raw). IsCoherent d shapes x.context) s.in_flight_contexts

  abbrev Keeps : IoTensors → Session Raw Gpu → Type 0
  Keeps io s = AllCoherent s × (s.io ≡ io)

  -- A context that is given is clean, and an error leaves the contexts of the session as they should be
  -- too.
  abbrev pub Pools : IoTensors → Result Error (ExecutionContext Raw) × Session Raw Gpu → Type 0
  Pools io (ok c, s) = AllCoherent s × IsClean io c
  Pools io (err e, s) = AllCoherent s

  given_back-Keeps :
      (s : Session Raw Gpu) (r : Result Error (Unit {0})) (l : Reclaim (InFlightContext Raw) Gpu)
      → All (IsCoherent d shapes) s.context_pool
      → All (λ (x : InFlightContext Raw). IsCoherent d shapes x.context) l.in_flight
      → All (λ (x : InFlightContext Raw). IsCoherent d shapes x.context) l.completed
      → Keeps s.io (given_back d s r l).1
  given_back-Keeps s (ok _) l pool flying done = (
    (
      All-append (IsCoherent d shapes) s.context_pool _ pool
          (All-map (IsCoherent d shapes) (λ (x : InFlightContext Raw). x.context) l.completed done),
      flying,
    ),
    refl,
  )
  given_back-Keeps s (err e) l pool flying done = ((pool, flying), refl)

  reclaim_finished_contexts-Keeps :
      (s : Session Raw Gpu) → AllCoherent s → Keeps s.io (reclaim_finished_contexts d s).1
  reclaim_finished_contexts-Keeps s (pool, flying) =
      let (left, done) =
        reclaim_loop-All d (event_of d) (λ (x : InFlightContext Raw). IsCoherent d shapes x.context)
          (length s.in_flight_contexts) 0 (in_flight_start s) flying tt in
      subst (λ r. Keeps s.io r.1) (sym (reclaim_finished_contexts-given_back d s))
        (given_back-Keeps s (contexts_loop d s).0 (contexts_loop d s).1 pool left done)

  -- Reclaiming graphs leaves the contexts alone.
  reclaim_finished_graphs-Keeps :
      (io : IoTensors) (s : Session Raw Gpu) → Keeps io s → Keeps io (reclaim_finished_graphs d s).1
  unfolding reclaim_finished_graphs
  reclaim_finished_graphs-Keeps io s h =
      let l =
        reclaim_loop d (λ (x : InFlightGraph Raw). x.event) (length s.in_flight_graphs) 0
          (record { in_flight = s.in_flight_graphs; completed = []; gpu = s.gpu }) in
      elim (Result-cases l.0) [
        | inl (u, e) ↦ rw (e, reclaim_finished_graphs) h
        | inr (bad, e) ↦ rw (e, reclaim_finished_graphs) h
      ]

  new_addresses :
      (g : Gpu) (r : Raw)
      → (d.create_context g).1 ≡ some r
      → (ts : List TensorInfo) → All (λ t. AddressLaws.address laws r t.name ≡ 0) ts
  new_addresses g r made [] = tt
  new_addresses g r made (t ∷ ts) =
      (AddressLaws.not_set laws g r t.name made, new_addresses g r made ts)

  new-IsClean :
      (io : IoTensors) (g : Gpu) (c : ExecutionContext Raw)
      → (create_execution_context d g).0 ≡ ok c
      → IsClean io c
  unfolding create_execution_context
  new-IsClean io g c h =
      let nothing : c.input_shapes ≡ none = ground arith in
      let made : (d.create_context g).1 ≡ some c.raw = ground arith in
      (
        new_addresses g c.raw made io.io_tensors,
        λ pairs known. absurd (ground (arith, nothing, known)),
      )

  take_context-Pools :
      (io : IoTensors) (s : Session Raw Gpu) → Keeps io s → Pools io (take_context d s)
  unfolding take_context
  take_context-Pools io s ((pool, flying), same) = elim (Option-cases (pop s.context_pool)) [
    | inl e ↦ elim (Result-cases (create_execution_context d s.gpu).0) [
      | inl (c, q) ↦ rw (e, q, take_context) ((pool, flying), new-IsClean io s.gpu c q)
      | inr (bad, q) ↦ rw (e, q, take_context) (pool, flying)
    ]
    | inr ((rest, c), e) ↦
        let (kept, coherent) = pop-All (IsCoherent d shapes) s.context_pool e pool in
        elim (Result-cases (clear_tensor_addresses d s.io c).0) [
          | inl (u, q) ↦
              let clean : IsClean s.io (clear_tensor_addresses d s.io c).1 =
                clear_tensor_addresses-IsCoherent d laws shapes s.io c q coherent in
              rw (e, q, take_context)
                (
                  (kept, flying),
                  subst (λ j. IsClean j (clear_tensor_addresses d s.io c).1) same clean,
                )
          | inr (bad, q) ↦ rw (e, q, take_context) (kept, flying)
        ]
  ]

  -- Where the contexts of a session, pooled and in flight, remember input shapes that are in effect,
  -- they still do after a context was asked for, with success or not; and a context that is given,
  -- from the pool or new, has no address of an earlier run, each tensor of the engine being at null,
  -- and remembers shapes that are in effect, if any.
  pub pooled_execution_context-IsClean :
      (s : Session Raw Gpu) → AllCoherent s → Pools s.io (pooled_execution_context d s)
  unfolding pooled_execution_context
  pooled_execution_context-IsClean s h =
      continue-keeps (Keeps s.io) (Pools s.io) (reclaim_finished_graphs d >> take_context d)
        (reclaim_finished_contexts d) s (reclaim_finished_contexts-Keeps s h) (λ e s' k. k.0)
        (λ s' k.
          continue-keeps (Keeps s.io) (Pools s.io) (take_context d) (reclaim_finished_graphs d) s'
            (reclaim_finished_graphs-Keeps s.io s' k) (λ e s'' k'. k'.0) (take_context-Pools s.io))

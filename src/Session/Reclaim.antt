-- ===== src/Session/Reclaim.antt =====
-- What reclaiming finished contexts does (`reclaim_finished_contexts`).
use mathlib.Core.List.{Perm}
use tensorrt_rs.Prelude.{
  ℕ, ◌≡◌, refl, ap, sym, subst, Bool, List, [], err, Result-cases, ◌++◌, map, some, Result, ok,
  length, get_elem?, arith, inl, inr,
}
use tensorrt_rs.Errors.{Error}
use tensorrt_rs.Engine.{Driver, query_event}
use tensorrt_rs.Session.State.{Session, InFlightContext}
use tensorrt_rs.Session.Pool.{
  Reclaim, reclaim_loop, reclaim_finished_contexts, push_events, context_event,
}
use tensorrt_rs.Session.ReclaimLoop.{finished, running, entries, Queried, Outcome, reclaim_loop_lem}

abbrev pub in_flight_start :
    {Raw Gpu : Type 0} → Session Raw Gpu → Reclaim (InFlightContext Raw) Gpu
in_flight_start s = record { in_flight = s.in_flight_contexts; completed = []; gpu = s.gpu }

module _ {Raw Gpu : Type 0} (d : Driver Raw Gpu) where
  abbrev pub event_of : InFlightContext Raw → ℕ
  event_of x = x.event

  -- What the events that were asked, the last of them in the state `g` of the device, mean for the
  -- session.
  abbrev pub Reclaimed :
      Session Raw Gpu
      → List (InFlightContext Raw × Bool)
      → Gpu
      → Result Error (Unit {0})
      → Session Raw Gpu
      → Type 0
  Reclaimed s asked g (ok _) s' =
      (s'.gpu ≡ g)
      × Perm (entries asked) s.in_flight_contexts
      × Perm (running asked) s'.in_flight_contexts
      × (s'.context_pool ≡ s.context_pool ++ map (λ x. x.context) (finished asked))
      × (s'.event_pool ≡ push_events s.event_pool (map context_event (finished asked)))
  Reclaimed s asked g (err e) s' =
      ((i : ℕ) × (x : InFlightContext Raw) × (get_elem? s'.in_flight_contexts i ≡ some x)
        × (query_event d x.event g ≡ (err e, s'.gpu)))
      × (s'.context_pool ≡ s.context_pool)
      × (s'.event_pool ≡ s.event_pool)

  abbrev pub Reclaims : Session Raw Gpu → Result Error (Unit {0}) × Session Raw Gpu → Type 0
  Reclaims s (r, s') =
      (asked : List (InFlightContext Raw × Bool)) × (g : Gpu) × Queried d event_of asked s.gpu g
      × Perm (finished asked ++ s'.in_flight_contexts) s.in_flight_contexts
      × Reclaimed s asked g r s'

  -- What becomes of the session when the loop has ended.
  abbrev pub given_back :
      Session Raw Gpu
      → Result Error (Unit {0})
      → Reclaim (InFlightContext Raw) Gpu
      → Result Error (Unit {0}) × Session Raw Gpu
  given_back s (err e) l = (err e, record s { in_flight_contexts = l.in_flight; gpu = l.gpu })
  given_back s (ok _) l = (
    ok tt,
    record s {
      context_pool = s.context_pool ++ map (λ (x : InFlightContext Raw). x.context) l.completed;
      in_flight_contexts = l.in_flight;
      event_pool = push_events s.event_pool (map context_event l.completed);
      gpu = l.gpu;
    },
  )

  reclaimed :
      (s : Session Raw Gpu) (r : Result Error (Unit {0})) (l : Reclaim (InFlightContext Raw) Gpu)
      → Outcome d event_of 0 (in_flight_start s) r l
      → Reclaims s (given_back s r l)
  reclaimed s (ok _) l (asked, g, seq, done, kept, (same, all, left)) = (
    asked,
    g,
    seq,
    kept,
    (
      same,
      all,
      left,
      ap (λ xs. s.context_pool ++ map (λ (x : InFlightContext Raw). x.context) xs) done,
      ap (λ xs. push_events s.event_pool (map context_event xs)) done,
    ),
  )
  reclaimed s (err _) l (asked, g, seq, done, kept, bad) = (asked, g, seq, kept, (bad, refl, refl))

  abbrev pub contexts_loop :
      Session Raw Gpu → Result Error (Unit {0}) × Reclaim (InFlightContext Raw) Gpu
  contexts_loop s = reclaim_loop d event_of (length s.in_flight_contexts) 0 (in_flight_start s)

  pub reclaim_finished_contexts-given_back :
      (s : Session Raw Gpu)
      → reclaim_finished_contexts d s ≡ given_back s (contexts_loop s).0 (contexts_loop s).1
  unfolding reclaim_finished_contexts
  reclaim_finished_contexts-given_back s = elim (Result-cases (contexts_loop s).0) [
    | inl (u, e) ↦ ground (arith, e)
    | inr (bad, e) ↦ ground (arith, e)
  ]

  -- Reclaiming asks events of entries in flight, one after the other. Where all answer, each entry was
  -- asked once, those that answered that they are running are just those left in flight, and the
  -- others are given to the pool of contexts behind those that are there, each once and in the order
  -- in which they answered, and their events to the event pool. Where a query fails, it is that of
  -- an entry that is left in flight, its error is returned, the entries found finished before it are
  -- out of flight, and neither pool has changed.
  pub reclaim_finished_contexts_lem :
      (s : Session Raw Gpu) → Reclaims s (reclaim_finished_contexts d s)
  reclaim_finished_contexts_lem s =
      subst (Reclaims s) (sym (reclaim_finished_contexts-given_back s)) (
        reclaimed s (contexts_loop s).0 (contexts_loop s).1 (
          reclaim_loop_lem d event_of (length s.in_flight_contexts) 0 (in_flight_start s)
            (omega arith)))

-- ===== src/Session/ReclaimLoop.antt =====
-- What the loop does that reclaims finished work, of whatever device.
use mathlib.Core.List.{Perm, append_assoc, append-nil}
use mathlib.Core.List.Perm
use tensorrt_rs.Prelude.{
  ℕ, zero, suc, ◌+◌, ◌≡◌, ◌≤◌, refl, ap, sym, subst, ◌∙◌, Bool, true, false, List, [], ◌∷◌, take,
  drop, err, Result-cases, ◌++◌, map, none, some, Result, ok, length, get_elem?, All, arith,
  Option-cases, inl, inr,
}
use tensorrt_rs.Prelude.Vectors.{swap_remove, swap_remove_lem, swap_remove-All, push, push-All}
use tensorrt_rs.Errors.{Error}
use tensorrt_rs.Engine.{Driver, query_event}
use tensorrt_rs.Session.Pool.{Reclaim, reclaim_loop}

drop_position :
    {X : Type 0} (xs : List X) (i : ℕ) {x : X}
    → get_elem? xs i ≡ some x
    → (drop i xs ≡ x ∷ drop (suc i) xs) × (take (suc i) xs ≡ take i xs ++ x ∷ [])
drop_position [] i h = absurd (cc)
drop_position (y ∷ ys) zero h = (ground arith, ground arith)
drop_position (y ∷ ys) (suc i) h =
    let (behind, before) = drop_position ys i h in (behind, ap (λ zs. y ∷ zs) before)

drop_all : {X : Type 0} (xs : List X) (i : ℕ) → length xs ≤ i → (drop i xs ≡ []) × (take i xs ≡ xs)
drop_all [] zero h = (refl, refl)
drop_all [] (suc i) h = (refl, refl)
drop_all (y ∷ ys) zero h = absurd (omega arith)
drop_all (y ∷ ys) (suc i) h =
    let (behind, before) = drop_all ys i (omega arith) in (behind, ap (λ zs. y ∷ zs) before)

get_elem?-beyond : {X : Type 0} (xs : List X) (i : ℕ) → get_elem? xs i ≡ none → length xs ≤ i
get_elem?-beyond [] i h = omega arith
get_elem?-beyond (y ∷ ys) zero h = absurd (cc)
get_elem?-beyond (y ∷ ys) (suc i) h = omega (arith, get_elem?-beyond ys i h)

-- The entries that were found finished, and those that were found running.
abbrev pub finished : {X : Type 0} → List (X × Bool) → List X
finished [] = []
finished ((x, true) ∷ asked) = x ∷ finished asked
finished ((x, false) ∷ asked) = finished asked

abbrev pub running : {X : Type 0} → List (X × Bool) → List X
running [] = []
running ((x, true) ∷ asked) = running asked
running ((x, false) ∷ asked) = x ∷ running asked

abbrev pub entries : {X : Type 0} → List (X × Bool) → List X
entries asked = map (λ q. q.0) asked

module _ {Raw Gpu X : Type 0} (d : Driver Raw Gpu) (event_of : X → ℕ) where
  -- The events of the entries are asked one after the other, from one state of the device to
  -- another, and answer as the list says.
  abbrev pub Queried : List (X × Bool) → Gpu → Gpu → Type 0
  Queried [] g g' = g ≡ g'
  Queried ((x, b) ∷ asked) g g' =
      ((query_event d (event_of x) g).0 ≡ ok b) × Queried asked (query_event d (event_of x) g).1 g'

  -- How the loop ends: with every entry from `index` on asked, or with an entry in flight whose
  -- query fails.
  abbrev pub Ending :
      ℕ → Reclaim X Gpu → List (X × Bool) → Gpu → Result Error (Unit {0}) → Reclaim X Gpu → Type 0
  Ending index s asked g (ok _) s' =
      (s'.gpu ≡ g)
      × Perm (entries asked) (drop index s.in_flight)
      × Perm (take index s.in_flight ++ running asked) s'.in_flight
  Ending index s asked g (err e) s' =
      (i : ℕ) × (x : X) × (get_elem? s'.in_flight i ≡ some x)
      × (query_event d (event_of x) g ≡ (err e, s'.gpu))

  abbrev pub Outcome : ℕ → Reclaim X Gpu → Result Error (Unit {0}) → Reclaim X Gpu → Type 0
  Outcome index s r s' =
      (asked : List (X × Bool)) × (g : Gpu) × Queried asked s.gpu g
      × (s'.completed ≡ s.completed ++ finished asked)
      × Perm (finished asked ++ s'.in_flight) s.in_flight
      × Ending index s asked g r s'

  loop_end :
      (index : ℕ) (s : Reclaim X Gpu) → length s.in_flight ≤ index → Outcome index s (ok tt) s
  loop_end index s beyond =
      let (behind, before) = drop_all s.in_flight index beyond in
      (
        [],
        s.gpu,
        refl,
        sym (append-nil s.completed),
        Perm.refl s.in_flight,
        (
          refl,
          subst (Perm []) (sym behind) (Perm.refl []),
          subst (λ l. Perm l s.in_flight) (sym (append-nil (take index s.in_flight) ∙ before))
              (Perm.refl s.in_flight),
        ),
      )

  abbrev asked_state : X → Gpu → Gpu
  asked_state x g = (query_event d (event_of x) g).1

  -- One round that finds an entry running, and the rounds that follow.
  round_running :
      (index : ℕ) (s : Reclaim X Gpu) (x : X) (r : Result Error (Unit {0})) (s' : Reclaim X Gpu)
      → get_elem? s.in_flight index ≡ some x
      → (query_event d (event_of x) s.gpu).0 ≡ ok false
      → Outcome (suc index) (record s { gpu = asked_state x s.gpu }) r s'
      → Outcome index s r s'
  round_running index s x (ok _) s' e q (asked, g, seq, done, kept, (same, all, left)) =
      let (behind, before) = drop_position s.in_flight index e in
      (
        (x, false) ∷ asked,
        g,
        (q, seq),
        done,
        kept,
        (
          same,
          subst (Perm (x ∷ entries asked)) (sym behind) (Perm.cons x all),
          subst (λ l. Perm l s'.in_flight)
              (ap (λ l. l ++ running asked) before
                ∙ append_assoc (take index s.in_flight) (x ∷ []) (running asked))
              left,
        ),
      )
  round_running index s x (err _) s' e q (asked, g, seq, done, kept, bad) =
      ((x, false) ∷ asked, g, (q, seq), done, kept, bad)

  -- One round that finds an entry finished.
  round_finished :
      (index : ℕ) (s : Reclaim X Gpu) (x : X) (rest : List X) (r : Result Error (Unit {0}))
      (s' : Reclaim X Gpu)
      → take index rest ≡ take index s.in_flight
      → Perm (x ∷ drop index rest) (drop index s.in_flight)
      → Perm (x ∷ rest) s.in_flight
      → (query_event d (event_of x) s.gpu).0 ≡ ok true
      → Outcome index
          (record { in_flight = rest; completed = push s.completed x; gpu = asked_state x s.gpu })
          r
          s'
      → Outcome index s r s'
  unfolding push
  round_finished index s x rest (ok _) s' before behind perm q
        (asked, g, seq, done, kept, (same, all, left)) =
      (
        (x, true) ∷ asked,
        g,
        (q, seq),
        done ∙ append_assoc s.completed (x ∷ []) (finished asked),
        Perm.trans (Perm.cons x kept) perm,
        (
          same,
          Perm.trans (Perm.cons x all) behind,
          subst (λ l. Perm (l ++ running asked) s'.in_flight) before left,
        ),
      )
  round_finished index s x rest (err _) s' before behind perm q (asked, g, seq, done, kept, bad) = (
    (x, true) ∷ asked,
    g,
    (q, seq),
    done ∙ append_assoc s.completed (x ∷ []) (finished asked),
    Perm.trans (Perm.cons x kept) perm,
    bad,
  )

  step_end :
      (rounds index : ℕ) (s : Reclaim X Gpu)
      → get_elem? s.in_flight index ≡ none
      → reclaim_loop d event_of (suc rounds) index s ≡ (ok tt, s)
  unfolding reclaim_loop
  step_end rounds index s e = ground arith

  step_failed :
      (rounds index : ℕ) (s : Reclaim X Gpu) (x : X) (bad : Error)
      → get_elem? s.in_flight index ≡ some x
      → (query_event d (event_of x) s.gpu).0 ≡ err bad
      → reclaim_loop d event_of (suc rounds) index s
        ≡ (err bad, record s { gpu = asked_state x s.gpu })
  unfolding reclaim_loop
  step_failed rounds index s x bad e q = ground arith

  step_finished :
      (rounds index : ℕ) (s : Reclaim X Gpu) (x : X) (rest : List X)
      → get_elem? s.in_flight index ≡ some x
      → (query_event d (event_of x) s.gpu).0 ≡ ok true
      → swap_remove s.in_flight index ≡ some (rest, x)
      → reclaim_loop d event_of (suc rounds) index s
        ≡ reclaim_loop d event_of rounds index
            (record { in_flight = rest; completed = push s.completed x; gpu = asked_state x s.gpu })
  unfolding reclaim_loop
  step_finished rounds index s x rest e q r = ground arith

  step_running :
      (rounds index : ℕ) (s : Reclaim X Gpu) (x : X)
      → get_elem? s.in_flight index ≡ some x
      → (query_event d (event_of x) s.gpu).0 ≡ ok false
      → reclaim_loop d event_of (suc rounds) index s
        ≡ reclaim_loop d event_of rounds (suc index) (record s { gpu = asked_state x s.gpu })
  unfolding reclaim_loop
  step_running rounds index s x e q = ground arith

  abbrev Ends : ℕ → Reclaim X Gpu → Result Error (Unit {0}) × Reclaim X Gpu → Type 0
  Ends index s (r, s') = Outcome index s r s'

  pub reclaim_loop_lem :
      (rounds index : ℕ) (s : Reclaim X Gpu)
      → length s.in_flight ≤ rounds + index
      → Ends index s (reclaim_loop d event_of rounds index s)
  unfolding reclaim_loop
  reclaim_loop_lem zero index s fuel = loop_end index s (omega arith)
  reclaim_loop_lem (suc rounds) index s fuel = elim (Option-cases (get_elem? s.in_flight index)) [
    | inl e ↦
        subst (Ends index s) (sym (step_end rounds index s e))
          (loop_end index s (get_elem?-beyond s.in_flight index e))
    | inr (x, e) ↦ elim (Result-cases (query_event d (event_of x) s.gpu).0) [
      | inr (bad, q) ↦ subst (Ends index s) (sym (step_failed rounds index s x bad e q)) (
        [],
        s.gpu,
        refl,
        sym (append-nil s.completed),
        Perm.refl s.in_flight,
        (index, x, e, ground arith),
      )
      | inl (true, q) ↦
          let (rest, r, len, before, behind, perm) = swap_remove_lem s.in_flight index e in
          subst (Ends index s) (sym (step_finished rounds index s x rest e q r)) (
            round_finished index s x rest _ _ before behind perm q
              (reclaim_loop_lem rounds index _ (omega (arith, len))))
      | inl (false, q) ↦
          subst (Ends index s) (sym (step_running rounds index s x e q))
            (round_running index s x _ _ e q (reclaim_loop_lem rounds (suc index) _ (omega arith)))
    ]
  ]

  -- What holds of all entries, goes on to hold of those in flight and of those taken out.
  abbrev AllIn : (X → Type 0) → Reclaim X Gpu → Type 0
  AllIn P s = All P s.in_flight × All P s.completed

  pub reclaim_loop-All :
      (P : X → Type 0) (rounds index : ℕ) (s : Reclaim X Gpu)
      → All P s.in_flight
      → All P s.completed
      → AllIn P (reclaim_loop d event_of rounds index s).1
  unfolding reclaim_loop
  reclaim_loop-All P zero index s h k = (h, k)
  reclaim_loop-All P (suc rounds) index s h k = elim (Option-cases (get_elem? s.in_flight index)) [
    | inl e ↦ subst (λ r. AllIn P r.1) (sym (step_end rounds index s e)) (h, k)
    | inr (x, e) ↦ elim (Result-cases (query_event d (event_of x) s.gpu).0) [
      | inr (bad, q) ↦ subst (λ r. AllIn P r.1) (sym (step_failed rounds index s x bad e q)) (h, k)
      | inl (true, q) ↦
          let (rest, r, _, _, _, _) = swap_remove_lem s.in_flight index e in
          let (kept, taken) = swap_remove-All P s.in_flight index r h in
          subst (λ r. AllIn P r.1) (sym (step_finished rounds index s x rest e q r))
            (reclaim_loop-All P rounds index _ kept (push-All P s.completed k taken))
      | inl (false, q) ↦
          subst (λ r. AllIn P r.1) (sym (step_running rounds index s x e q))
            (reclaim_loop-All P rounds (suc index) _ h k)
    ]
  ]

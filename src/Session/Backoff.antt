-- ===== src/Session/Backoff.antt =====
-- The back-off after CUDA graph captures that fail.
use native.Mathlib.Nat.{pow-suc}
use native.Mathlib.Decide.{dec_lt}
use tensorrt_rs.Prelude.{
  ℕ, zero, suc, ◌-◌, ◌*◌, ◌^◌, ◌≡◌, ◌<◌, min, true, false, none, some, arith, if◌then◌else◌,
}
use tensorrt_rs.Prelude.Maps.{lookup, lookup-insert}
use tensorrt_rs.Session.State.{
  CudaGraphKey, cuda_graph_key_eq, CudaGraphBackoff, new_backoff, back_off_again, max_backoff_runs,
}
use tensorrt_rs.Session.Graph.{
  Backoffs, should_skip_cuda_graph_capture, record_cuda_graph_capture_failure,
}

power_step : (n : ℕ) → 2 ^ suc n ≡ 2 * 2 ^ n
power_step n = omega (arith, pow-suc 2 n)

-- The state that `n + 1` failures lead to.
abbrev pub after_failures : ℕ → CudaGraphBackoff
after_failures n = record {
  remaining_runs = min (8 * 2 ^ n) max_backoff_runs;
  next_runs = min (8 * 2 ^ suc n) max_backoff_runs;
}

-- No run remains of a back-off when the next capture is tried.
back_off_again_step :
    (n : ℕ)
    → back_off_again (record (after_failures n) { remaining_runs = 0 }) ≡ after_failures (suc n)
unfolding back_off_again
back_off_again_step n = ground (arith, power_step n, power_step (suc n))

-- One question while runs remain.
skip_once :
    (key : CudaGraphKey) (m : Backoffs) (b : CudaGraphBackoff)
    → lookup key m ≡ some b
    → 0 < b.remaining_runs
    → (should_skip_cuda_graph_capture key m).0 ≡ true
      × (lookup key (should_skip_cuda_graph_capture key m).1
          ≡ some (record b { remaining_runs = b.remaining_runs - 1 }))
unfolding should_skip_cuda_graph_capture
skip_once key m b e l =
    ground (arith, lookup-insert key key (record b { remaining_runs = b.remaining_runs - 1 }) m)

-- One question when none remain: nothing changes.
ask_at_end :
    (key : CudaGraphKey) (m : Backoffs) (b : CudaGraphBackoff)
    → lookup key m ≡ some b
    → b.remaining_runs ≡ 0
    → should_skip_cuda_graph_capture key m ≡ (false, m)
unfolding should_skip_cuda_graph_capture
ask_at_end key m b e l = ground arith

-- The runs of a key, at most as many as given, up to the one that is not to skip the capture: how
-- many skip it before, and the back-offs then.
pub until_capture : ℕ → CudaGraphKey → Backoffs → ℕ × Backoffs
until_capture zero key m = (0, m)
until_capture (suc runs) key m =
    let (skip, m') = should_skip_cuda_graph_capture key m in
    let (count, left) = until_capture runs key m' in if skip then (suc count, left) else (0, m')

-- Among more runs than remain, those that remain skip the capture and are counted down.
until_capture_lem :
    (runs : ℕ) (key : CudaGraphKey) (m : Backoffs) (b : CudaGraphBackoff)
    → lookup key m ≡ some b
    → b.remaining_runs < runs
    → ((until_capture runs key m).0 ≡ b.remaining_runs)
      × (lookup key (until_capture runs key m).1 ≡ some (record b { remaining_runs = 0 }))
unfolding until_capture
until_capture_lem zero key m b e fuel = absurd (omega arith)
until_capture_lem (suc runs) key m b e fuel = elim (dec_lt 0 b.remaining_runs) [
  | yes more ↦
      let (skip, left) = skip_once key m b e more in
      let (count, at_end) =
        until_capture_lem runs key (should_skip_cuda_graph_capture key m).1
          (record b { remaining_runs = b.remaining_runs - 1 }) left (omega arith) in
      (ground arith, ground arith)
  | no none_left ↦ let same = ask_at_end key m b e (omega arith) in (ground arith, ground arith)
]

-- The back-offs after `n + 1` captures of a key that fail, each tried in the first run that is not
-- to skip it. A back-off is of no more than `max_backoff_runs` runs, so one more is enough.
pub failures : ℕ → Backoffs → CudaGraphKey → Backoffs
failures zero m key = record_cuda_graph_capture_failure key m
failures (suc n) m key =
    record_cuda_graph_capture_failure key
      (until_capture (suc max_backoff_runs) key (failures n m key)).1

failures_state :
    (n : ℕ) (m : Backoffs) (key : CudaGraphKey)
    → lookup key m ≡ none
    → lookup key (failures n m key) ≡ some (after_failures n)
unfolding failures record_cuda_graph_capture_failure new_backoff
failures_state zero m key e = ground (arith, lookup-insert key key new_backoff m)
failures_state (suc n) m key e =
    let (_, waited) =
      until_capture_lem (suc max_backoff_runs) key (failures n m key) (after_failures n)
        (failures_state n m key e) (omega arith) in
    let left = (until_capture (suc max_backoff_runs) key (failures n m key)).1 in
    ground (
      arith,
      waited,
      back_off_again_step n,
      lookup-insert key key (back_off_again (record (after_failures n) { remaining_runs = 0 }))
          left,
    )

-- From no back-off, where each capture of a key that fails is tried again in the first run that is
-- not to skip it: after n + 1 failures just 8 * 2^n runs, at most 64, skip the capture before the
-- next is tried, and the next failure leads to twice as many, at most 64.
pub failures_lem :
    (n : ℕ) (m : Backoffs) (key : CudaGraphKey)
    → lookup key m ≡ none
    → (lookup key (failures n m key) ≡ some (after_failures n))
      × ((until_capture (suc max_backoff_runs) key (failures n m key)).0
          ≡ min (8 * 2 ^ n) max_backoff_runs)
failures_lem n m key e = (
  failures_state n m key e,
  (until_capture_lem (suc max_backoff_runs) key (failures n m key) (after_failures n)
      (failures_state n m key e) (omega arith)).0,
)

-- Asking `n` times whether to skip: how often the answer is to skip, and what is left.
pub asked : ℕ → CudaGraphKey → Backoffs → ℕ × Backoffs
asked zero key m = (0, m)
asked (suc n) key m =
    let (skip, m') = should_skip_cuda_graph_capture key m in
    let (count, left) = asked n key m' in ((if skip then suc count else count), left)

-- For a key with a back-off, of n questions as many are answered by skipping the capture as the
-- back-off has runs that remain, or n if that is less, and those runs are counted down.
pub asked_lem :
    (n : ℕ) (key : CudaGraphKey) (m : Backoffs) (b : CudaGraphBackoff)
    → lookup key m ≡ some b
    → ((asked n key m).0 ≡ min n b.remaining_runs)
      × (lookup key (asked n key m).1 ≡ some (record b { remaining_runs = b.remaining_runs - n }))
unfolding asked
asked_lem zero key m b e = (omega arith, ground arith)
asked_lem (suc n) key m b e = elim (dec_lt 0 b.remaining_runs) [
  | yes more ↦
      let (skip, left) = skip_once key m b e more in
      let (count, at_end) =
        asked_lem n key (should_skip_cuda_graph_capture key m).1
          (record b { remaining_runs = b.remaining_runs - 1 }) left in
      (ground arith, ground arith)
  | no none_left ↦
      let same = ask_at_end key m b e (omega arith) in
      let (count, at_end) = asked_lem n key m b e in (ground arith, ground arith)
]

-- ===== src/Comm/Libp2p/Finishing.antt =====
-- A task of a broadcast comes to its end.
use binance_tss_demo.Prelude.{
  ℕ, zero, suc, ◌-◌, ◌≤◌, ◌≡◌, refl, Bytes, List, [], ◌∷◌, Option, none, some, Option-cases,
  Result-cases, inl, inr, arith,
}
use binance_tss_demo.Peers.{PeerId}
use binance_tss_demo.Process.{Runtime, Failure}
use binance_tss_demo.Coordinator.Effects.{returned}
use binance_tss_demo.Comm.Streams.{StreamManager, stream}
use binance_tss_demo.Comm.Libp2p.{
  Network, Task, starting, looking, opening, adding, writing, finished, write_to, advance,
  advance_at, run_tasks, failures, wait,
}

-- The steps that a task has left at most.
abbrev pub steps_left : Task → ℕ
steps_left (starting p) = 5
steps_left (looking p) = 4
steps_left (opening p) = 3
steps_left (adding p s) = 2
steps_left (writing p s) = 1
steps_left (finished p e) = 0

-- The only task takes a number of steps.
abbrev pub steps : ℕ → List ℕ
steps zero = []
steps (suc n) = 0 ∷ steps n

module _ (net : Network) (session_id msg : Bytes) where
  written_last :
      (p : PeerId) (s : ℕ) (e : Option (ℕ × Bytes))
      → steps_left (write_to net session_id msg p s e).1 ≤ 0
  unfolding write_to
  written_last p s none = omega arith
  written_last p s (some (n, e)) = omega arith

  advance-steps_left :
      (k : ℕ) (sm : StreamManager) (t : Task)
      → steps_left (advance net session_id msg k sm t).2 ≤ steps_left t - 1
  unfolding advance
  advance-steps_left k sm (starting p) = elim (Option-cases (net.resolve_dns p)) [
    | inl e ↦ rw (e, advance) (omega arith)
    | inr (x, e) ↦ rw (e, advance) (omega arith)
  ]
  advance-steps_left k sm (looking p) = elim (Option-cases (stream sm session_id p)) [
    | inl e ↦ rw (e, advance) (omega arith)
    | inr (x, e) ↦ rw (e, advance) (omega arith)
  ]
  advance-steps_left k sm (opening p) = elim (Result-cases (net.new_stream k p)) [
    | inl (s, e) ↦ rw (e, advance) (omega arith)
    | inr (x, e) ↦ rw (e, advance) (omega arith)
  ]
  advance-steps_left k sm (adding p s) = omega arith
  advance-steps_left k sm (writing p s) = written_last p s (net.write_error s)
  advance-steps_left k sm (finished p e) = omega arith

  -- A task alone is at its end after the steps that it has left.
  run_tasks-alone :
      (n : ℕ) (sm : StreamManager) (t : Task)
      → steps_left t ≤ n
      → (t' : Task) × ((run_tasks net session_id msg (steps n) sm (t ∷ [])).2 ≡ t' ∷ [])
        × (steps_left t' ≡ 0)
  unfolding run_tasks advance_at
  run_tasks-alone zero sm t h = (t, refl, omega arith)
  run_tasks-alone (suc n) sm t h =
      let (sm', out, t') = advance net session_id msg 0 sm t in
      run_tasks-alone n sm' t' (omega (arith, advance-steps_left 0 sm t))

wait-finished :
    (rt : Runtime) (t : Task)
    → steps_left t ≡ 0
    → (f : Failure) × (wait rt (failures (t ∷ [])) ≡ returned f)
unfolding wait failures
wait-finished rt (finished p none) h = (_, refl)
wait-finished rt (finished p (some e)) h = (_, refl)
wait-finished rt (starting p) h = absurd (omega arith)
wait-finished rt (looking p) h = absurd (omega arith)
wait-finished rt (opening p) h = absurd (omega arith)
wait-finished rt (adding p s) h = absurd (omega arith)
wait-finished rt (writing p s) h = absurd (omega arith)

-- A broadcast with one task returns.
pub alone-returns :
    (net : Network) (session_id msg : Bytes) (rt : Runtime) (sm : StreamManager) (p : PeerId)
    → (f : Failure) × (wait rt
          (failures (run_tasks net session_id msg (steps 5) sm (starting p ∷ [])).2)
        ≡ returned f)
alone-returns net session_id msg rt sm p =
    let (t, e, h) = run_tasks-alone net session_id msg 5 sm (starting p) (omega arith) in
    rw (e) (wait-finished rt t h)

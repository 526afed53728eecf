-- ===== src/Comm/Libp2p/Once.antt =====
-- A task of a broadcast writes at most once.
use binance_tss_demo.Prelude.{
  ℕ, zero, suc, ◌+◌, ◌≤◌, ◌≡◌, refl, not, Bytes, List, [], ◌∷◌, Option, none, some, Option-cases,
  Result-cases, inl, inr, arith, length, length-append, keep, ◌==◌, bytes_Comparable,
}
use binance_tss_demo.Peers.{PeerId}
use binance_tss_demo.Comm.Streams.{StreamManager, stream}
use binance_tss_demo.Comm.Libp2p.{
  Network, Task, starting, looking, opening, adding, writing, finished, write_to, advance,
  advance_at, run_tasks, tasks_for,
}

abbrev write_left : Task → ℕ
write_left (finished p e) = 0
write_left t = 1

abbrev writes_left : List Task → ℕ
writes_left [] = 0
writes_left (t ∷ ts) = write_left t + writes_left ts

one_each :
    (host : PeerId) (ps : List PeerId)
    → writes_left (tasks_for host ps) ≡ length (keep (λ p. not (host == p)) ps)
unfolding tasks_for
one_each host [] = refl
one_each host (p ∷ ps) = ground (arith, one_each host ps)

module _ (net : Network) (session_id msg : Bytes) where
  write_to-once :
      (p : PeerId) (s : ℕ) (e : Option (ℕ × Bytes))
      → length (write_to net session_id msg p s e).0
          + write_left (write_to net session_id msg p s e).1
        ≤ 1
  unfolding write_to
  write_to-once p s none = omega arith
  write_to-once p s (some (n, e)) = omega arith

  advance-once :
      (k : ℕ) (sm : StreamManager) (t : Task)
      → length (advance net session_id msg k sm t).1
          + write_left (advance net session_id msg k sm t).2
        ≤ write_left t
  unfolding advance
  advance-once k sm (starting p) = elim (Option-cases (net.resolve_dns p)) [
    | inl e ↦ rw (e, advance) (omega arith)
    | inr (x, e) ↦ rw (e, advance) (omega arith)
  ]
  advance-once k sm (looking p) = elim (Option-cases (stream sm session_id p)) [
    | inl e ↦ rw (e, advance) (omega arith)
    | inr (x, e) ↦ rw (e, advance) (omega arith)
  ]
  advance-once k sm (opening p) = elim (Result-cases (net.new_stream k p)) [
    | inl (s, e) ↦ rw (e, advance) (omega arith)
    | inr (x, e) ↦ rw (e, advance) (omega arith)
  ]
  advance-once k sm (adding p s) = omega arith
  advance-once k sm (writing p s) = write_to-once p s (net.write_error s)
  advance-once k sm (finished p e) = omega arith

  advance_at-once :
      (k i : ℕ) (sm : StreamManager) (ts : List Task)
      → length (advance_at net session_id msg k i sm ts).1
          + writes_left (advance_at net session_id msg k i sm ts).2
        ≤ writes_left ts
  unfolding advance_at
  advance_at-once k i sm [] = omega arith
  advance_at-once k zero sm (t ∷ ts) = omega (arith, advance-once k sm t)
  advance_at-once k (suc i) sm (t ∷ ts) = omega (arith, advance_at-once (suc k) i sm ts)

  run_tasks-once :
      (schedule : List ℕ) (sm : StreamManager) (ts : List Task)
      → length (run_tasks net session_id msg schedule sm ts).1
          + writes_left (run_tasks net session_id msg schedule sm ts).2
        ≤ writes_left ts
  unfolding run_tasks
  run_tasks-once [] sm ts = omega arith
  run_tasks-once (i ∷ schedule) sm ts =
      let (sm', out, ts') = advance_at net session_id msg 0 i sm ts in
      let outs = (run_tasks net session_id msg schedule sm' ts').1 in
      omega
        (arith, length-append out outs, advance_at-once 0 i sm ts, run_tasks-once schedule sm' ts')

  -- There are at most as many writes as peers that are not the host.
  pub tasks_for-once :
      (schedule : List ℕ) (sm : StreamManager) (host : PeerId) (peers : List PeerId)
      → length (run_tasks net session_id msg schedule sm (tasks_for host peers)).1
        ≤ length (keep (λ p. not (host == p)) peers)
  tasks_for-once schedule sm host peers =
      omega (arith, run_tasks-once schedule sm (tasks_for host peers), one_each host peers)

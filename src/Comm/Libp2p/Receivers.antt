-- ===== src/Comm/Libp2p/Receivers.antt =====
-- The peers of the tasks of a broadcast.
use binance_tss_demo.Prelude.{
  ℕ, ◌≡◌, refl, ap, ◌∙◌, true, false, Bytes, List, [], ◌∷◌, Option, none, some, bytes_Comparable,
  ◌==◌, arith, Bool-cases, inl, inr, ◌⊎◌, contains, zero, suc, Option-cases, Result-cases,
}
use binance_tss_demo.Peers.{PeerId}
use binance_tss_demo.Comm.Streams.{StreamManager, stream}
use binance_tss_demo.Comm.Libp2p.{
  Network, Task, starting, looking, opening, adding, writing, finished, write_to, advance,
  advance_at, run_tasks, tasks_for,
}

-- A peer that the broadcast is for.
abbrev pub IsReceiver : PeerId → List PeerId → PeerId → Type 0
IsReceiver host peers p = (contains peers p ≡ true) × ((host == p) ≡ false)

pub in_tail :
    (p q : PeerId) (ps : List PeerId)
    → contains (q ∷ ps) p ≡ true
    → (p ≡ q) ⊎ (contains ps p ≡ true)
in_tail p q ps h = elim (Bool-cases (p == q)) [
  | inl e ↦ inl ((bytes_Comparable.equal_iff p q).0 e)
  | inr f ↦ inr (ground arith)
]

-- The peer of a task.
abbrev peer_of : Task → PeerId
peer_of (starting p) = p
peer_of (looking p) = p
peer_of (opening p) = p
peer_of (adding p s) = p
peer_of (writing p s) = p
peer_of (finished p e) = p

unfoldable pub peers_of : List Task → List PeerId
peers_of [] = []
peers_of (t ∷ ts) = peer_of t ∷ peers_of ts

module _ (net : Network) (session_id msg : Bytes) where
  write_to-peer :
      (p : PeerId) (s : ℕ) (e : Option (ℕ × Bytes))
      → peer_of (write_to net session_id msg p s e).1 ≡ p
  unfolding write_to
  write_to-peer p s none = refl
  write_to-peer p s (some (n, e)) = refl

  advance-peer :
      (k : ℕ) (sm : StreamManager) (t : Task)
      → peer_of (advance net session_id msg k sm t).2 ≡ peer_of t
  unfolding advance
  advance-peer k sm (starting p) = elim (Option-cases (net.resolve_dns p)) [
    | inl e ↦ rw (e, advance) refl
    | inr (x, e) ↦ rw (e, advance) refl
  ]
  advance-peer k sm (looking p) = elim (Option-cases (stream sm session_id p)) [
    | inl e ↦ rw (e, advance) refl
    | inr (x, e) ↦ rw (e, advance) refl
  ]
  advance-peer k sm (opening p) = elim (Result-cases (net.new_stream k p)) [
    | inl (s, e) ↦ rw (e, advance) refl
    | inr (x, e) ↦ rw (e, advance) refl
  ]
  advance-peer k sm (adding p s) = refl
  advance-peer k sm (writing p s) = write_to-peer p s (net.write_error s)
  advance-peer k sm (finished p e) = refl

  advance_at-peers :
      (k i : ℕ) (sm : StreamManager) (ts : List Task)
      → peers_of (advance_at net session_id msg k i sm ts).2 ≡ peers_of ts
  unfolding advance_at peers_of
  advance_at-peers k i sm [] = refl
  advance_at-peers k zero sm (t ∷ ts) = ap (λ p. p ∷ peers_of ts) (advance-peer k sm t)
  advance_at-peers k (suc i) sm (t ∷ ts) = ap (◌∷◌ (peer_of t)) (advance_at-peers (suc k) i sm ts)

  pub run_tasks-peers :
      (schedule : List ℕ) (sm : StreamManager) (ts : List Task)
      → peers_of (run_tasks net session_id msg schedule sm ts).2 ≡ peers_of ts
  unfolding run_tasks
  run_tasks-peers [] sm ts = refl
  run_tasks-peers (i ∷ schedule) sm ts =
      let (sm', out, ts') = advance_at net session_id msg 0 i sm ts in
      run_tasks-peers schedule sm' ts' ∙ advance_at-peers 0 i sm ts

pub tasks_for-peers :
    (host : PeerId) (peers : List PeerId) (p : PeerId)
    → IsReceiver host peers p
    → contains (peers_of (tasks_for host peers)) p ≡ true
unfolding tasks_for peers_of
tasks_for-peers host [] p (h, n) = absurd (cc)
tasks_for-peers host (q ∷ ps) p (h, n) = elim (in_tail p q ps h) [
  | inl same ↦ ground (arith, ap (λ x. host == x) same, bytes_Comparable.equal_iff p q)
  | inr there ↦ ground (arith, tasks_for-peers host ps p (there, n))
]

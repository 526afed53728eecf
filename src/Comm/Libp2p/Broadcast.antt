-- ===== src/Comm/Libp2p/Broadcast.antt =====
-- What a broadcast brings to whom.
use mathlib.Core.Path.{subst}
use binance_tss_demo.Comm.Libp2p.Once.{tasks_for-once}
use binance_tss_demo.Prelude.{
  length, keep, not, ◌≤◌, ℕ, ◌≡◌, refl, ap, ◌∙◌, sym, true, Bytes, List, [], ◌∷◌, Option, none,
  some, ok, bytes_Comparable, ◌==◌, arith, Bool-cases, inl, inr, contains, All, eq_refl, ok,
}
use binance_tss_demo.Peers.{PeerId}
use binance_tss_demo.Message.{MessageType}
use binance_tss_demo.Process.{Error, Failure, Runtime, IsPool}
use binance_tss_demo.Coordinator.Effects.{Outcome, returned}
use binance_tss_demo.Comm.Framing.{write_stream}
use binance_tss_demo.Comm.Streams.{StreamManager, stream}
use binance_tss_demo.Comm.Libp2p.{
  Network, MessageJson, Written, Task, finished, run_tasks, tasks_for, prepend, failures, wait,
  broadcast,
}
use binance_tss_demo.Comm.Libp2p.Lines.{Kept, IsWritten, IsStart, IsFor}
use binance_tss_demo.Comm.Libp2p.Sending.{TaskOk, run_tasks-Advanced}
use binance_tss_demo.Comm.Libp2p.Receivers.{
  IsReceiver, in_tail, peers_of, run_tasks-peers, tasks_for-peers,
}

-- What a broadcast has done so far: to whom it has written what, if it returned no error; what it has
-- written in any case, how often, the streams that were there, and those that the session has now.
pub record Reached (net : Network) (host : PeerId) (peers : List PeerId) (msg session_id : Bytes)
    (sm : StreamManager) (result : StreamManager × Written × Outcome) : Type 0 where
  pub all :
      result.2 ≡ returned none
      → (p : PeerId) → IsReceiver host peers p
      → (s : ℕ) × IsFor net sm session_id p s × IsWritten s (write_stream msg) result.1
  pub only :
      (s : ℕ) (line : Bytes)
      → IsWritten s line result.1
      → (p : PeerId) × IsReceiver host peers p
        × IsFor net sm session_id p s
        × IsStart line (write_stream msg)
  pub once : length result.1 ≤ length (keep (λ p. not (host == p)) peers)
  pub kept : Kept sm result.0
  pub known :
      (p : PeerId) (s : ℕ) → stream result.0 session_id p ≡ some s → IsFor net sm session_id p s

-- What stands in a list stands in a longer one.
contains_tail :
    (p q : PeerId) (ps : List PeerId) → contains ps p ≡ true → contains (q ∷ ps) p ≡ true
contains_tail p q ps h = ground arith

contains_head : (p : PeerId) (ps : List PeerId) → contains (p ∷ ps) p ≡ true
contains_head p ps = ground (arith, eq_refl p)

tasks_for-Ok :
    (net : Network) (session_id msg : Bytes) (sm : StreamManager) (host : PeerId)
    (IsPeer : PeerId → Type 0) (ps : List PeerId)
    → ((p : PeerId) → IsReceiver host ps p → IsPeer p)
    → All (TaskOk net session_id msg sm IsPeer []) (tasks_for host ps)
unfolding tasks_for
tasks_for-Ok net session_id msg sm host IsPeer [] is = tt
tasks_for-Ok net session_id msg sm host IsPeer (q ∷ ps) is =
    let rest =
      tasks_for-Ok net session_id msg sm host IsPeer ps
        (λ p h. is p (contains_tail p q ps h.0, h.1)) in
    elim (Bool-cases (host == q)) [
      | inl e ↦ rw (e, tasks_for) rest
      | inr e ↦ rw (e, tasks_for) (is q (contains_head q ps, e), rest)
    ]

abbrev IsDone : Task → Type 0
IsDone (finished p none) = Unit {0}
IsDone t = ⊥

prepend-some :
    (f : Failure) (o : Option (List Failure)) (fs : List Failure)
    → prepend f o ≡ some fs
    → (gs : List Failure) × (o ≡ some gs) × (fs ≡ f ∷ gs)
prepend-some f none fs e = absurd (cc)
prepend-some f (some gs) fs e = (gs, refl, cc)

-- All tasks are at their end, without an error.
failures-IsDone :
    (ts : List Task) (fs : List Failure)
    → failures ts ≡ some fs
    → All (λ f. f ≡ none) fs
    → All IsDone ts
unfolding failures
failures-IsDone [] fs e fine = tt
failures-IsDone (finished p none ∷ ts) fs e fine =
    let (gs, rest, same) = prepend-some none (failures ts) fs e in
    (tt, failures-IsDone ts gs rest (subst (All (λ f. f ≡ none)) same fine).1)
failures-IsDone (finished p (some x) ∷ ts) fs e fine =
    let (gs, rest, same) = prepend-some _ (failures ts) fs e in
    absurd (some_none (subst (All (λ f. f ≡ none)) same fine).0)
  where
    some_none : {y : Error} → ◌≡◌ {A = Failure} (some y) none → ⊥
    some_none h = absurd (cc)
failures-IsDone (t ∷ ts) fs e fine = absurd (cc)

done-written :
    (net : Network) (session_id msg : Bytes) (sm : StreamManager) (IsPeer : PeerId → Type 0)
    (out : Written) (ts : List Task) (p : PeerId)
    → All (TaskOk net session_id msg sm IsPeer out) ts
    → All IsDone ts
    → contains (peers_of ts) p ≡ true
    → (s : ℕ) × IsFor net sm session_id p s × IsWritten s (write_stream msg) out
unfolding peers_of
done-written net session_id msg sm IsPeer out [] p ok_tasks dones h = absurd (cc)
done-written net session_id msg sm IsPeer out (finished q none ∷ ts) p ((is, found), oks) (d, ds)
      h =
    elim (in_tail p q (peers_of ts) h) [
      | inl same ↦
          subst (λ x. (s : ℕ) × IsFor net sm session_id x s × IsWritten s (write_stream msg) out)
            (sym same) found
      | inr there ↦ done-written net session_id msg sm IsPeer out ts p oks ds there
    ]
done-written net session_id msg sm IsPeer out (t ∷ ts) p (ok_task, oks) (d, ds) h = absurd d

wait-fine :
    (rt : Runtime) (o : Option (List Failure))
    → wait rt o ≡ returned none
    → (fs : List Failure) × (o ≡ some fs) × (rt.pool_wait fs ≡ none)
unfolding wait
wait-fine rt none e = absurd (cc)
wait-fine rt (some fs) e = (fs, refl, same e)
  where
    same : {f g : Failure} → returned f ≡ returned g → f ≡ g
    same h = cc

-- Whatever the order in which the tasks of a broadcast take their steps, if it has returned no error,
-- the line of the message was written to a stream of each other peer of the list; whatever it has
-- returned, and while it waits, what was written is that line or its first bytes, each time to a stream
-- of such a peer, and no more often than there are such peers in the list; every stream that the
-- sessions had is still there, and any stream that the session now has with a peer is one that it had or
-- one that was opened to that peer; when a pool returns no error only if no task did, and the message is
-- marshalled.
pub broadcast-Reached :
    (net : Network) (json : MessageJson) (rt : Runtime) (schedule : List ℕ) (host : PeerId)
    (sm : StreamManager) (peers : List PeerId) (msg : Bytes) (msg_type : MessageType)
    (session_id bytes : Bytes)
    → IsPool rt
    → json.marshal
        (record { message_type = msg_type; session_id = session_id; payload = msg; from = host })
      ≡ ok bytes
    → Reached net host peers bytes session_id sm
        (broadcast net json rt schedule host sm peers msg msg_type session_id)
unfolding broadcast
broadcast-Reached net json rt schedule host sm peers msg msg_type session_id bytes pool e =
    rw (e, broadcast)
      (let ts = tasks_for host peers in
        let ts' = (run_tasks net session_id bytes schedule sm ts).2 in
        let (streams, oks, written) =
          run_tasks-Advanced net session_id bytes sm (IsReceiver host peers) schedule [] sm ts
            ((λ i p s h. h), (λ p s h. inl h))
            (tasks_for-Ok net session_id bytes sm host (IsReceiver host peers) peers (λ p h. h)) in
        record {
          all = λ fine p is.
              let (fs, all_returned, no_failure) = wait-fine rt (failures ts') fine in
              done-written net session_id bytes sm (IsReceiver host peers) _ ts' p oks
                (failures-IsDone ts' fs all_returned (pool.no_error fs no_failure))
                (ap (λ ps. contains ps p) (run_tasks-peers net session_id bytes schedule sm ts)
                  ∙ tasks_for-peers host peers p is);
          only = written;
          once = tasks_for-once net session_id bytes schedule sm host peers;
          kept = streams.0;
          known = streams.1;
        })

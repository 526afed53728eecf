-- ===== src/Comm/Libp2p/Sending.antt =====
-- What the tasks of a broadcast send, and the streams that they leave.
use mathlib.Core.List.{append_assoc}
use mathlib.Core.Path.{subst, subst₂, ap₂}
use binance_tss_demo.Prelude.{
  ℕ, zero, suc, ◌≡◌, refl, ap, ◌∙◌, sym, Bool, true, false, ◌&&◌, Bytes, List, [], ◌∷◌, ◌++◌,
  Option, none, some, bytes_Comparable, ◌==◌, if◌then◌else◌, Option-cases, Result-cases, inl, inr,
  All, take,
}
use binance_tss_demo.Peers.{PeerId}
use binance_tss_demo.Comm.Framing.{write_stream}
use binance_tss_demo.Comm.Streams.{StreamManager, add_stream, stream}
use binance_tss_demo.Comm.Streams.Laws.{stream-add_stream}
use binance_tss_demo.Comm.Libp2p.{
  Network, Written, Task, starting, looking, opening, adding, writing, finished, write_to, advance,
  advance_at, run_tasks,
}
use binance_tss_demo.Comm.Libp2p.Lines.{
  Kept, IsWritten, IsWritten-append, written_left, written_right, IsStart, IsFor,
}

some_same : {a b : ℕ} → some a ≡ some b → a ≡ b
some_same e = cc

module _ (net : Network) (session_id msg : Bytes) (before : StreamManager)
    (IsPeer : PeerId → Type 0) where
  abbrev pub TaskOk : Written → Task → Type 0
  TaskOk out (starting p) = IsPeer p
  TaskOk out (looking p) = IsPeer p
  TaskOk out (opening p) = IsPeer p
  TaskOk out (adding p s) = IsPeer p × IsFor net before session_id p s
  TaskOk out (writing p s) = IsPeer p × IsFor net before session_id p s
  TaskOk out (finished p none) =
      IsPeer p × ((s : ℕ) × IsFor net before session_id p s × IsWritten s (write_stream msg) out)
  TaskOk out (finished p (some e)) = IsPeer p

  TaskOk-append : (out outs : Written) (t : Task) → TaskOk out t → TaskOk (out ++ outs) t
  TaskOk-append out outs (starting p) h = h
  TaskOk-append out outs (looking p) h = h
  TaskOk-append out outs (opening p) h = h
  TaskOk-append out outs (adding p s) h = h
  TaskOk-append out outs (writing p s) h = h
  TaskOk-append out outs (finished p none) (is, (s, for_p, w)) =
      (is, (s, for_p, written_left s (write_stream msg) out outs w))
  TaskOk-append out outs (finished p (some e)) h = h

  abbrev pub OutOk : Written → Type 0
  OutOk out =
      (s : ℕ) (line : Bytes)
      → IsWritten s line out
      → (p : PeerId) × IsPeer p × IsFor net before session_id p s × IsStart line (write_stream msg)

  abbrev pub StreamsOk : StreamManager → Type 0
  StreamsOk sm =
      Kept before sm
      × ((p : PeerId) (s : ℕ) → stream sm session_id p ≡ some s → IsFor net before session_id p s)

  add_stream-Ok :
      (sm : StreamManager) (p : PeerId) (s : ℕ)
      → StreamsOk sm
      → IsFor net before session_id p s
      → StreamsOk (add_stream sm session_id p s)
  add_stream-Ok sm p s (kept, known) for_p = (
    (λ sid q t h.
        stream-add_stream sm session_id sid p q s
        ∙ here (sid == session_id) (q == p) sid q t (bytes_Comparable.equal_iff sid session_id).0
            (bytes_Comparable.equal_iff q p).0 (kept sid q t h)),
    (λ q t h.
        there (session_id == session_id) (q == p) q t (bytes_Comparable.equal_iff q p).0
          (stream sm session_id p) refl
          (sym (stream-add_stream sm session_id session_id p q s) ∙ h)),
  )
    where
      here :
          (a b : Bool) (sid : Bytes) (q : PeerId) (t : ℕ)
          → (a ≡ true → sid ≡ session_id)
          → (b ≡ true → q ≡ p)
          → stream sm sid q ≡ some t
          → (if a && b
              then (elim (stream sm session_id p) [ some s' ↦ some s' | none ↦ some s ])
              else stream sm sid q)
            ≡ some t
      here false b sid q t e f h = h
      here true false sid q t e f h = h
      here true true sid q t e f h = rw (ap₂ (stream sm) (sym (e refl)) (sym (f refl)) ∙ h) refl

      opened : (q : PeerId) (t : ℕ) → q ≡ p → some s ≡ some t → IsFor net before session_id q t
      opened q t e h = subst₂ (IsFor net before session_id) (sym e) (some_same h) for_p

      there :
          (a b : Bool) (q : PeerId) (t : ℕ)
          → (b ≡ true → q ≡ p)
          → (o : Option ℕ) → stream sm session_id p ≡ o
          → (if a && b
              then (elim o [ some s' ↦ some s' | none ↦ some s ])
              else stream sm session_id q)
            ≡ some t
          → IsFor net before session_id q t
      there false b q t e o i h = known q t h
      there true false q t e o i h = known q t h
      there true true q t e none i h = opened q t (e refl) h
      there true true q t e (some s') i h = known q t (ap (stream sm session_id) (e refl) ∙ i ∙ h)

  abbrev Advanced : Written → StreamManager × Written × Task → Type 0
  Advanced out (sm, more, t) = StreamsOk sm × TaskOk (out ++ more) t × OutOk more

  unchanged :
      (out : Written) (sm : StreamManager) (t : Task)
      → StreamsOk sm
      → TaskOk out t
      → Advanced out (sm, [], t)
  unchanged out sm t ok_streams h = (ok_streams, TaskOk-append out [] t h, λ s line w. absurd w)

  one_write :
      (p : PeerId) (s : ℕ) (part : Bytes)
      → IsPeer p
      → IsFor net before session_id p s
      → IsStart part (write_stream msg)
      → OutOk ((s, part) ∷ [])
  one_write p s part is for_p start t line (inl e) = (
    p,
    is,
    subst (IsFor net before session_id p) (ap (λ x. x.0) e) for_p,
    subst (λ l. IsStart l (write_stream msg)) (ap (λ x. x.1) e) start,
  )
  one_write p s part is for_p start t line (inr w) = absurd w

  write_to-Advanced :
      (out : Written) (sm : StreamManager) (p : PeerId) (s : ℕ) (e : Option (ℕ × Bytes))
      → StreamsOk sm
      → IsPeer p
      → IsFor net before session_id p s
      → Advanced out
          (sm, (write_to net session_id msg p s e).0, (write_to net session_id msg p s e).1)
  unfolding write_to
  write_to-Advanced out sm p s none streams is for_p = (
    streams,
    (is, (s, for_p, written_right s (write_stream msg) out _ (inl refl))),
    one_write p s (write_stream msg) is for_p (inl refl),
  )
  write_to-Advanced out sm p s (some (n, e)) streams is for_p =
      (streams, is, one_write p s (take n (write_stream msg)) is for_p (inr (n, refl)))

  advance-Advanced :
      (out : Written) (k : ℕ) (sm : StreamManager) (t : Task)
      → StreamsOk sm
      → TaskOk out t
      → Advanced out (advance net session_id msg k sm t)
  unfolding advance
  advance-Advanced out k sm (starting p) streams is = elim (Option-cases (net.resolve_dns p)) [
    | inl e ↦ rw (e, advance) (unchanged out sm (looking p) streams is)
    | inr (x, e) ↦ rw (e, advance) (unchanged out sm (finished p (some x)) streams is)
  ]
  advance-Advanced out k sm (looking p) streams is = elim (Option-cases (stream sm session_id p)) [
    | inl e ↦ rw (e, advance) (unchanged out sm (opening p) streams is)
    | inr (s, e) ↦ rw (e, advance) (unchanged out sm (writing p s) streams (is, streams.1 p s e))
  ]
  advance-Advanced out k sm (opening p) streams is = elim (Result-cases (net.new_stream k p)) [
    | inl (s, e) ↦ rw (e, advance) (unchanged out sm (adding p s) streams (is, inr (k, e)))
    | inr (x, e) ↦ rw (e, advance) (unchanged out sm (finished p (some x)) streams is)
  ]
  advance-Advanced out k sm (adding p s) streams (is, for_p) =
      unchanged out (add_stream sm session_id p s) (writing p s)
        (add_stream-Ok sm p s streams for_p) (is, for_p)
  advance-Advanced out k sm (writing p s) streams (is, for_p) =
      write_to-Advanced out sm p s (net.write_error s) streams is for_p
  advance-Advanced out k sm (finished p e) streams h = unchanged out sm (finished p e) streams h

  abbrev AllAdvanced : Written → StreamManager × Written × List Task → Type 0
  AllAdvanced out (sm, more, ts) = StreamsOk sm × All (TaskOk (out ++ more)) ts × OutOk more

  All-append :
      (out outs : Written) (ts : List Task) → All (TaskOk out) ts → All (TaskOk (out ++ outs)) ts
  All-append out outs [] h = tt
  All-append out outs (t ∷ ts) (h, hs) = (TaskOk-append out outs t h, All-append out outs ts hs)

  advance_at-Advanced :
      (out : Written) (k i : ℕ) (sm : StreamManager) (ts : List Task)
      → StreamsOk sm
      → All (TaskOk out) ts
      → AllAdvanced out (advance_at net session_id msg k i sm ts)
  unfolding advance_at
  advance_at-Advanced out k i sm [] streams all = (streams, tt, λ s line w. absurd w)
  advance_at-Advanced out k zero sm (t ∷ ts) streams (h, hs) =
      let (streams', one, sent) = advance-Advanced out k sm t streams h in
      (streams', (one, All-append out (advance net session_id msg k sm t).1 ts hs), sent)
  advance_at-Advanced out k (suc i) sm (t ∷ ts) streams (h, hs) =
      let (streams', rest, sent) = advance_at-Advanced out (suc k) i sm ts streams hs in
      (
        streams',
        (TaskOk-append out (advance_at net session_id msg (suc k) i sm ts).1 t h, rest),
        sent,
      )

  OutOk-append : (out outs : Written) → OutOk out → OutOk outs → OutOk (out ++ outs)
  OutOk-append out outs a b s line w = elim (IsWritten-append s line out outs w) [
    | inl v ↦ a s line v
    | inr v ↦ b s line v
  ]

  pub run_tasks-Advanced :
      (schedule : List ℕ) (out : Written) (sm : StreamManager) (ts : List Task)
      → StreamsOk sm
      → All (TaskOk out) ts
      → AllAdvanced out (run_tasks net session_id msg schedule sm ts)
  unfolding run_tasks
  run_tasks-Advanced [] out sm ts streams all =
      (streams, All-append out [] ts all, λ s line w. absurd w)
  run_tasks-Advanced (i ∷ schedule) out sm ts streams all =
      let (streams1, all1, sent1) = advance_at-Advanced out 0 i sm ts streams all in
      let (sm1, more, ts1) = advance_at net session_id msg 0 i sm ts in
      let (streams2, all2, sent2) =
        run_tasks-Advanced schedule (out ++ more) sm1 ts1 streams1 all1 in
      let outs = (run_tasks net session_id msg schedule sm1 ts1).1 in
      (
        streams2,
        subst (λ o. All (TaskOk o) (run_tasks net session_id msg schedule sm1 ts1).2)
            (append_assoc out more outs) all2,
        OutOk-append more outs sent1 sent2,
      )

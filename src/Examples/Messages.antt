-- ===== src/Examples/Messages.antt =====
-- Streams, broadcasts and the messages that come in.
use binance_tss_demo.Prelude.{
  ◌≡◌, refl, Bool, false, ◌&&◌, Bytes, List, [], ◌∷◌, ◌++◌, none, some, ok, err, codes, ap, sym,
  ◌∙◌, not, Bool-cases, inl, inr, arith, ◌==◌, bytes_Comparable, if◌then◌else◌, contains,
  nat_Comparable, All, true, ℕ,
}
use binance_tss_demo.Message.{WrappedMessage, tss_ready_msg, type_Comparable}
use binance_tss_demo.Process.{Failure, IsPool}
use binance_tss_demo.Comm.Framing.{read_stream, write_stream}
use binance_tss_demo.Comm.Subscriptions.{Subscribers, get_subscribers}
use binance_tss_demo.Comm.Streams.{StreamManager, stream, add_stream}
use binance_tss_demo.Comm.Libp2p.{
  Network, MessageJson, Reader, Step, Steps, next_round, new_reader, process_messages, broadcast,
  run_tasks, tasks_for,
}
use binance_tss_demo.Comm.Health.{execute_comm_health_check}
use binance_tss_demo.Comm.Libp2p.Broadcast.{Reached, broadcast-Reached}
use binance_tss_demo.Comm.Libp2p.Ends.{process_messages-ends}
use binance_tss_demo.Comm.Libp2p.Receiving.{IsMessageJson, Carries, Arrived, Steps-Arrived}
use binance_tss_demo.Examples.World.{p1, p2, p3, sid, rt, up}

framing_test : read_stream (codes "a" ++ (10 ∷ codes "b")) ≡ ok (codes "a", codes "b")
unfolding read_stream
framing_test = refl

-- One stream of the session to `p2`.
abbrev one_stream : StreamManager
one_stream = record { streams_by_session_id = (sid, (p2, 5) ∷ []) ∷ []; closed = [] }

add_test : stream (add_stream one_stream sid p2 9) sid p2 ≡ some 5
unfolding stream add_stream
add_test = refl

abbrev net : Network
net = record { resolve_dns = λ p. none; new_stream = λ k p. ok 9; write_error = λ s. none }

-- JSON in which the payload alone counts, and a payload with a newline cannot be written.
abbrev plain_text : MessageJson
plain_text = record {
  marshal = λ m. ok (m.payload);
  unmarshal =
      λ b. ok (record { message_type = tss_ready_msg; session_id = sid; payload = b; from = [] });
}

fine : (fs : List Failure) → rt.pool_wait fs ≡ none → All (λ f. f ≡ none) fs
fine [] e = tt
fine (some x ∷ fs) e = absurd (cc)
fine (none ∷ fs) e = (refl, fine fs e)

rt-IsPool : IsPool rt
rt-IsPool = record { no_error = fine }

-- Two tasks, for `p2` and `p3`, that take turns.
abbrev turns : List ℕ
turns = 0 ∷ 1 ∷ 0 ∷ 1 ∷ 1 ∷ 1 ∷ 1 ∷ 0 ∷ []

broadcast_test :
    (broadcast net plain_text rt turns p1 one_stream up (codes "m") tss_ready_msg sid).1
    ≡ (9, codes "m" ++ (10 ∷ [])) ∷ (5, codes "m" ++ (10 ∷ [])) ∷ []
unfolding broadcast run_tasks tasks_for stream write_stream
broadcast_test = refl

-- Two tasks for one peer each open a stream, and the one that is not kept is written to as well.
abbrev racing : Network
racing = record net { new_stream = λ k p. ok k }

race_test :
    (broadcast racing plain_text rt
      (0 ∷ 1 ∷ 0 ∷ 1 ∷ 0 ∷ 1 ∷ 0 ∷ 1 ∷ 0 ∷ 1 ∷ [])
      p1
      one_stream
      (p3 ∷ p3 ∷ [])
      (codes "m")
      tss_ready_msg
      sid).1
    ≡ (0, codes "m" ++ (10 ∷ [])) ∷ (1, codes "m" ++ (10 ∷ [])) ∷ []
unfolding broadcast run_tasks tasks_for stream write_stream
race_test = refl

-- A write that fails after one byte.
abbrev failing : Network
failing = record net { write_error = λ s. some (1, codes "reset") }

partial_test :
    (broadcast failing plain_text rt turns p1 one_stream (p2 ∷ []) (codes "m") tss_ready_msg sid).1
    ≡ (5, codes "m") ∷ []
unfolding broadcast run_tasks tasks_for stream write_stream
partial_test = refl

broadcast-Reached_example :
    Reached net p1 up
      (codes "m")
      sid
      one_stream
      (broadcast net plain_text rt turns p1 one_stream up (codes "m") tss_ready_msg sid)
broadcast-Reached_example =
    broadcast-Reached net plain_text rt turns p1 one_stream up (codes "m") tss_ready_msg sid
      (codes "m") rt-IsPool refl

-- JSON that fits messages of one type and session with payloads of one line.
abbrev fits : WrappedMessage → Bool
fits m = m.message_type == tss_ready_msg && m.session_id == sid && not (contains m.payload 10)

abbrev narrow : MessageJson
narrow = record plain_text {
  marshal = λ m. if fits m then ok (m.payload) else err (codes "unsupported");
}

narrow_fits :
    (m : WrappedMessage) (bytes : Bytes)
    → narrow.marshal m ≡ ok bytes
    → (m.message_type ≡ tss_ready_msg)
      × (m.session_id ≡ sid)
      × (contains m.payload 10 ≡ false)
      × (m.payload ≡ bytes)
narrow_fits m bytes e = elim (Bool-cases (fits m)) [
  | inl t ↦ (
    (type_Comparable.equal_iff m.message_type tss_ready_msg).0 (ground arith),
    (bytes_Comparable.equal_iff m.session_id sid).0 (ground arith),
    ground arith,
    ground arith,
  )
  | inr f ↦ absurd (ground arith)
]

narrow-IsMessageJson : IsMessageJson narrow
narrow-IsMessageJson = record {
  one_line =
      λ m bytes e. let (t, s, l, p) = narrow_fits m bytes e in ap (λ b. contains b 10) (sym p) ∙ l;
  round_trip = λ m bytes e. let (t, s, l, p) = narrow_fits m bytes e in rw (t, s, p) refl;
}

abbrev forged : WrappedMessage
forged = record { message_type = tss_ready_msg; session_id = sid; payload = codes "x"; from = p3 }

abbrev table : Subscribers
table = (sid, (tss_ready_msg, (codes "1", 7) ∷ []) ∷ []) ∷ []

abbrev line_of_x : Bytes
line_of_x = write_stream (codes "x") ++ []

abbrev to_x : WrappedMessage
to_x = record forged { from = p2 }

-- The message is read, and then its goroutine sends it.
abbrev has_read : Reader
has_read = record { n = 1; left = []; running = true; pending = (7, to_x) ∷ []; sent = [] }

abbrev has_sent : Reader
has_sent = record { n = 1; left = []; running = true; pending = []; sent = (7, to_x) ∷ [] }

reads_test : next_round narrow table p2 line_of_x ≡ some ((7, to_x) ∷ [], [])
unfolding next_round read_stream write_stream get_subscribers
reads_test = refl

two-Steps : Steps narrow (λ n. table) p2 (new_reader 0 line_of_x) has_sent
unfolding new_reader
two-Steps =
    Steps.then_step {r = has_read}
      (Steps.then_step Steps.stays (Step.reads {r = new_reader 0 line_of_x} refl reads_test))
      (Step.sends_one [] [] (7, to_x) refl)

Steps-Arrived_example : Arrived narrow (λ n. table) p2 0 (forged ∷ []) has_sent
Steps-Arrived_example =
    Steps-Arrived narrow (λ n. table) p2 0 (forged ∷ []) line_of_x narrow-IsMessageJson
      (Carries.line refl Carries.nothing) two-Steps

process_messages-ends_example :
    (process_messages narrow (λ n. table) p2 0 3 (codes "x" ++ 10 ∷ [])).1 ≡ true
process_messages-ends_example =
    process_messages-ends narrow (λ n. table) p2 0 3 (codes "x" ++ 10 ∷ []) (omega arith)

health_test :
    (execute_comm_health_check net plain_text rt p1 one_stream up).1
    ≡ (9, 10 ∷ []) ∷ (9, 10 ∷ []) ∷ []
unfolding execute_comm_health_check broadcast stream write_stream add_stream
health_test = refl

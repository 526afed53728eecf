-- ===== src/Comm/Libp2p.antt =====
-- tss_util/comm/p2p/libp2p.go: broadcasts over streams, and the messages that come in.
pub mod Lines
pub mod Sending
pub mod Receivers
pub mod Once
pub mod Broadcast
pub mod Finishing
pub mod Receiving
pub mod Ends
use binance_tss_demo.Prelude.{
  ℕ, zero, suc, Bool, true, false, Bytes, List, [], ◌∷◌, ◌++◌, Option, none, some, Result, ok, err,
  map, take, ◌==◌, ◌≡◌, if◌then◌else◌, bytes_Comparable,
}
use binance_tss_demo.Peers.{PeerId}
use binance_tss_demo.Message.{MessageType, WrappedMessage}
use binance_tss_demo.Process.{Error, communication_error, other, Failure, Runtime}
use binance_tss_demo.Coordinator.Effects.{Outcome, waiting, returned}
use binance_tss_demo.Comm.Framing.{read_stream, write_stream}
use binance_tss_demo.Comm.Streams.{StreamManager, add_stream, stream}
use binance_tss_demo.Comm.Subscriptions.{Subscribers, get_subscribers}

-- What the code calls of libp2p and its name resolver, at one time: the connection to a peer, a new
-- stream for the task of a position, and the error of a write with how many bytes of the line have gone out before it. `none` is no
-- error.
pub record Network : Type 0 where
  pub resolve_dns : PeerId → Option Bytes
  pub new_stream : ℕ → PeerId → Result Bytes ℕ
  pub write_error : ℕ → Option (ℕ × Bytes)

-- encoding/json on wrapped messages.
pub record MessageJson : Type 0 where
  pub marshal : WrappedMessage → Result Bytes Bytes
  pub unmarshal : Bytes → Result Bytes WrappedMessage

-- The bytes that went out on streams, one write after the other.
abbrev pub Written : Type 0
Written = List (ℕ × Bytes)

-- Where a task of a broadcast is, in `sendMessage` to its peer: before resolveDNS, before it asks the
-- stream manager, without a stream, with a new one that the manager does not have yet, before it writes,
-- and at its end with the error.
pub data Task : Type 0 where
  starting : PeerId → Task
  looking : PeerId → Task
  opening : PeerId → Task
  adding : PeerId → ℕ → Task
  writing : PeerId → ℕ → Task
  finished : PeerId → Option Bytes → Task

module _ (net : Network) (session_id msg : Bytes) where
  -- `WriteStream` on a stream: a write that fails may have sent some bytes of the line.
  write_to : PeerId → ℕ → Option (ℕ × Bytes) → Written × Task
  write_to p s none = ((s, write_stream msg) ∷ [], finished p none)
  write_to p s (some (n, e)) = ((s, take n (write_stream msg)) ∷ [], finished p (some e))

  -- One step of `sendMessage`, by the task of a position.
  unfoldable pub advance : ℕ → StreamManager → Task → StreamManager × Written × Task
  unfolding write_to
  advance k sm (starting p) = elim (net.resolve_dns p) [
    | some e ↦ (sm, [], finished p (some e))
    | none ↦ (sm, [], looking p)
  ]
  advance k sm (looking p) = elim (stream sm session_id p) [
    | some s ↦ (sm, [], writing p s)
    | none ↦ (sm, [], opening p)
  ]
  advance k sm (opening p) = elim (net.new_stream k p) [
    | err e ↦ (sm, [], finished p (some e))
    | ok s ↦ (sm, [], adding p s)
  ]
  advance k sm (adding p s) = (add_stream sm session_id p s, [], writing p s)
  advance k sm (writing p s) = let (out, t) = write_to p s (net.write_error s) in (sm, out, t)
  advance k sm (finished p e) = (sm, [], finished p e)

  -- A step of the task at an index, in tasks from a position on.
  unfoldable pub advance_at :
      ℕ → ℕ → StreamManager → List Task → StreamManager × Written × List Task
  unfolding advance
  advance_at k i sm [] = (sm, [], [])
  advance_at k zero sm (t ∷ ts) = let (sm', out, t') = advance k sm t in (sm', out, t' ∷ ts)
  advance_at k (suc i) sm (t ∷ ts) =
      let (sm', out, ts') = advance_at (suc k) i sm ts in (sm', out, t ∷ ts')

  -- The tasks side by side: the schedule says which of them takes the next step.
  unfoldable pub run_tasks :
      List ℕ → StreamManager → List Task → StreamManager × Written × List Task
  unfolding advance_at
  run_tasks [] sm ts = (sm, [], ts)
  run_tasks (i ∷ schedule) sm ts =
      let (sm', out, ts') = advance_at 0 i sm ts in
      let (sm'', outs, ts'') = run_tasks schedule sm' ts' in (sm'', out ++ outs, ts'')

-- The loop over the peers starts a task for each but the host.
unfoldable pub tasks_for : PeerId → List PeerId → List Task
tasks_for host [] = []
tasks_for host (p ∷ ps) =
    let rest = tasks_for host ps in if host == p then rest else starting p ∷ rest

abbrev pub prepend : Failure → Option (List Failure) → Option (List Failure)
prepend f none = none
prepend f (some fs) = some (f ∷ fs)

-- What the tasks return, once they have all returned: a `CommunicationError` for an error.
unfoldable pub failures : List Task → Option (List Failure)
failures [] = some []
failures (finished p none ∷ ts) = let rest = failures ts in prepend none rest
failures (finished p (some e) ∷ ts) =
    let rest = failures ts in prepend (some (communication_error p)) rest
failures (t ∷ ts) = none

-- `Wait`.
unfoldable pub wait : Runtime → Option (List Failure) → Outcome
wait rt none = waiting
wait rt (some fs) = returned (rt.pool_wait fs)

-- `Broadcast`.
unfoldable pub broadcast :
    Network
    → MessageJson
    → Runtime
    → List ℕ
    → PeerId
    → StreamManager
    → List PeerId
    → Bytes
    → MessageType
    → Bytes
    → StreamManager × Written × Outcome
unfolding run_tasks tasks_for failures wait
broadcast net json rt schedule host sm peers msg msg_type session_id =
    elim (json.marshal
      (record { message_type = msg_type; session_id = session_id; payload = msg; from = host })) [
        | err e ↦ (sm, [], returned (some (other e)))
        | ok bytes ↦
            let (sm', out, ts) =
              run_tasks net session_id bytes schedule sm (tasks_for host peers) in
            (sm', out, wait rt (failures ts))
      ]

-- A send of a message to the channel of a subscriber, in a goroutine of its own.
abbrev pub Send : Type 0
Send = ℕ × WrappedMessage

-- The goroutines that are started for a message: the sender is the peer of the stream.
unfoldable pub deliver : Subscribers → PeerId → WrappedMessage → List Send
deliver subscribers remote m =
    map (λ channel. (channel, record m { from = remote }))
      (get_subscribers subscribers m.session_id m.message_type)

-- One round of the loop of `ProcessMessagesFromStream`: the goroutines that it starts and what is left
-- of the stream, or none if it returns.
unfoldable pub next_round : MessageJson → Subscribers → PeerId → Bytes → Option (List Send × Bytes)
unfolding deliver
next_round json subscribers remote bytes = elim (read_stream bytes) [
  | err e ↦ none
  | ok (msg, left) ↦ elim (json.unmarshal msg) [
    | err e ↦ none
    | ok m ↦ some (deliver subscribers remote m, left)
  ]
]

-- `ProcessMessagesFromStream`: the goroutines that it starts, and whether it has returned within the
-- fuel, which bounds the rounds; `subscribers n` are those at the time of message n.
unfoldable pub process_messages :
    MessageJson → (ℕ → Subscribers) → PeerId → ℕ → ℕ → Bytes → List Send × Bool
unfolding next_round
process_messages json subscribers remote n zero bytes = ([], false)
process_messages json subscribers remote n (suc fuel) bytes =
    elim (next_round json (subscribers n) remote bytes) [
      | none ↦ ([], true)
      | some (sends, left) ↦
          let (more, over) = process_messages json subscribers remote (suc n) fuel left in
          (sends ++ more, over)
    ]

-- The loop beside the goroutines: what is left of the stream at message n while the loop runs, the
-- goroutines that still hold their message, and what has been sent.
pub record Reader : Type 0 where
  pub n : ℕ
  pub left : Bytes
  pub running : Bool
  pub pending : List Send
  pub sent : List Send

pub data Step (json : MessageJson) (subscribers : ℕ → Subscribers) (remote : PeerId)
    : Reader → Reader → Type 0 where
  reads :
      {r : Reader} {sends : List Send} {left : Bytes}
      → r.running ≡ true
      → next_round json (subscribers r.n) remote r.left ≡ some (sends, left)
      → Step json subscribers remote r
          (record r { n = suc r.n; left = left; pending = r.pending ++ sends })
  returns :
      {r : Reader}
      → r.running ≡ true
      → next_round json (subscribers r.n) remote r.left ≡ none
      → Step json subscribers remote r (record r { running = false })
  sends_one :
      {r : Reader} (before after : List Send) (x : Send)
      → r.pending ≡ before ++ x ∷ after
      → Step json subscribers remote r
          (record r { pending = before ++ after; sent = r.sent ++ x ∷ [] })

pub data Steps (json : MessageJson) (subscribers : ℕ → Subscribers) (remote : PeerId)
    (start : Reader) : Reader → Type 0 where
  stays : Steps json subscribers remote start start
  then_step :
      {r r' : Reader}
      → Steps json subscribers remote start r
      → Step json subscribers remote r r'
      → Steps json subscribers remote start r'

-- The stream is opened.
unfoldable pub new_reader : ℕ → Bytes → Reader
new_reader n bytes = record { n = n; left = bytes; running = true; pending = []; sent = [] }

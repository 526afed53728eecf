-- ===== src/Frost/Messages.antt =====
-- tss_util/tss/frost/common/base.go: the messages between the parties of the protocol.
pub mod Routed
use binance_tss_demo.Prelude.{
  Bool, true, false, Bytes, List, [], ◌∷◌, Option, none, some, Result, ok, err, ◌==◌,
  bytes_Comparable, if◌then◌else◌,
}
use binance_tss_demo.Peers.{PeerId, PeerLib}
use binance_tss_demo.Message.{WrappedMessage}
use binance_tss_demo.Process.{Error, other, Failure}
use binance_tss_demo.Coordinator.Effects.{Outcome, waiting, returned}

-- What the handler of the protocol says to a message when it is asked if it can accept it.
pub data Answer : Type 0 where
  accepts skips : Answer
  panics : Bytes → Answer

-- What the select of the inbound loop takes: a message, with the handler's answer, or the end of the
-- context. The handler changes in tasks beside the loop, so its answer is given with the message.
pub data InEvent : Type 0 where
  message : WrappedMessage → Answer → InEvent
  done : InEvent

-- `Message` is multi-party-sig's; `unmarshal` reads its binary form.
module _ {Message : Type 0} (unmarshal : Bytes → Result Error Message) where
  abbrev accepted : Message → List Message × Outcome → List Message × Outcome
  accepted m (ms, outcome) = (m ∷ ms, outcome)

  unfoldable pub on_message :
      Result Error Message → Answer → List Message × Outcome → List Message × Outcome
  on_message (err e) answer next = ([], returned (some e))
  on_message (ok m) accepts next = accepted m next
  on_message (ok m) skips next = next
  on_message (ok m) (panics stack) next = ([], returned (some (other stack)))

  -- `ProcessInboundMessages`: the messages that go to the handler, each in a task of its own, and how
  -- the loop ends; a panic is turned into an error.
  unfoldable pub process_inbound_messages : List InEvent → List Message × Outcome
  unfolding on_message
  process_inbound_messages [] = ([], waiting)
  process_inbound_messages (done ∷ events) = ([], returned none)
  process_inbound_messages (message w answer ∷ events) =
      let next = process_inbound_messages events in on_message (unmarshal w.payload) answer next

-- A message of the protocol: its binary form, and where it is to go.
pub record OutMessage : Type 0 where
  pub bytes : Result Error Bytes
  pub is_broadcast : Bool
  pub to : Bytes

-- What the select of the outbound loop takes: a message, with what Broadcast will return for it; that
-- the handler has closed its channel, and if the value for Done is ever taken; or the end of the
-- context.
pub data OutEvent : Type 0 where
  out : OutMessage → Failure → OutEvent
  closed : Bool → OutEvent
  done : OutEvent

-- A call of Broadcast, and the value that is sent to Done.
pub data Sent : Type 0 where
  sent : List PeerId → Bytes → Sent
  finished : Sent

module _ (lib : PeerLib) (peers : List PeerId) where
  decoded : Option PeerId → Bytes → Result Error (List PeerId)
  decoded (some p) to = ok (p ∷ [])
  decoded none to = err (other to)

  -- `BroadcastPeers`.
  unfoldable pub broadcast_peers : OutMessage → Result Error (List PeerId)
  unfolding decoded
  broadcast_peers m =
      if m.is_broadcast
      then ok peers
      else if m.to == []
      then ok peers
      else decoded (lib.decode m.to) m.to

  -- What the loop does with one message, given what Broadcast returns and what the loop does next.
  unfoldable pub on_out :
      Result Error Bytes
      → Result Error (List PeerId)
      → Failure
      → List Sent × Outcome
      → List Sent × Outcome
  on_out (err e) to failure next = ([], returned (some e))
  on_out (ok payload) (err e) failure next = ([], returned (some e))
  on_out (ok payload) (ok ps) (some e) next = (sent ps payload ∷ [], returned (some e))
  on_out (ok payload) (ok ps) none (log, outcome) = (sent ps payload ∷ log, outcome)

  -- `ProcessOutboundMessages`, after the pause.
  unfoldable pub process_outbound_messages : List OutEvent → List Sent × Outcome
  unfolding on_out broadcast_peers
  process_outbound_messages [] = ([], waiting)
  process_outbound_messages (done ∷ events) = ([], returned none)
  process_outbound_messages (closed true ∷ events) = (finished ∷ [], returned none)
  process_outbound_messages (closed false ∷ events) = ([], waiting)
  process_outbound_messages (out m failure ∷ events) =
      let next = process_outbound_messages events in on_out m.bytes (broadcast_peers m) failure next

-- ===== src/Frost/Messages/Routed.antt =====
-- What the two loops do with the messages.
use binance_tss_demo.Prelude.{
  ◌≡◌, ◌≢◌, refl, ap, ◌∙◌, Bool, true, false, Bytes, List, [], ◌∷◌, ◌++◌, Option, none, some,
  Result, ok, map, bytes_Comparable, if◌then◌else◌, arith, ne→false,
}
use binance_tss_demo.Peers.{PeerId, PeerLib}
use binance_tss_demo.Message.{WrappedMessage}
use binance_tss_demo.Process.{Error}
use binance_tss_demo.Coordinator.Effects.{Outcome, returned}
use binance_tss_demo.Frost.Messages.{
  Answer, accepts, skips, InEvent, OutMessage, OutEvent, Sent, sent, finished, on_message,
  process_inbound_messages, broadcast_peers, on_out, decoded, process_outbound_messages,
}

-- A message that can be read, with what the handler says to it.
pub record Arrival (Message : Type 0) : Type 0 where
  pub wrapped : WrappedMessage
  pub read : Message
  pub accepted : Bool

abbrev pub answer_of : Bool → Answer
answer_of true = accepts
answer_of false = skips

abbrev pub arrivals : {Message : Type 0} → List (Arrival Message) → List InEvent
arrivals ins = map (λ a. InEvent.message a.wrapped (answer_of a.accepted)) ins

abbrev pub IsRead :
    {Message : Type 0} → (Bytes → Result Error Message) → List (Arrival Message) → Type 0
IsRead unmarshal [] = Unit
IsRead unmarshal (a ∷ ins) = (unmarshal a.wrapped.payload ≡ ok a.read) × IsRead unmarshal ins

abbrev pub taken : {Message : Type 0} → List (Arrival Message) → List Message
taken [] = []
taken (a ∷ ins) = if a.accepted then a.read ∷ taken ins else taken ins

-- Messages that can be read do not end the loop: those that the handler accepts go to it, in their
-- order, the others are passed over, and the loop goes on with what comes after them.
pub inbound-taken :
    {Message : Type 0} (unmarshal : Bytes → Result Error Message) (ins : List (Arrival Message))
    (events : List InEvent)
    → IsRead unmarshal ins
    → process_inbound_messages unmarshal (arrivals ins ++ events) ≡ (
        let (ms, outcome) = process_inbound_messages unmarshal events in (taken ins ++ ms, outcome))
unfolding process_inbound_messages on_message
inbound-taken unmarshal [] events is = refl
inbound-taken unmarshal (a ∷ ins) events (read, is) =
    ground (arith, read, inbound-taken unmarshal ins events is)

-- A message of the protocol that has a binary form, to all (`none`) or to one peer.
pub record Outgoing : Type 0 where
  pub payload : Bytes
  pub destination : Option PeerId

abbrev pub out_message : PeerLib → Outgoing → OutMessage
out_message lib o = elim o.destination [
  | none ↦ record { bytes = ok o.payload; is_broadcast = true; to = [] }
  | some p ↦ record { bytes = ok o.payload; is_broadcast = false; to = lib.pretty p }
]

abbrev pub sent_to : List PeerId → Outgoing → Sent
sent_to peers o = elim o.destination [
  | none ↦ sent peers o.payload
  | some p ↦ sent (p ∷ []) o.payload
]

-- The text form of a peer is not empty and is decoded to the peer.
pub record IsDecoded (lib : PeerLib) : Type 0 where
  pub not_empty : (p : PeerId) → lib.pretty p ≢ []
  pub round_trip : (p : PeerId) → lib.decode (lib.pretty p) ≡ some p

abbrev noted : Sent → List Sent × Outcome → List Sent × Outcome
noted x (log, outcome) = (x ∷ log, outcome)

outbound-step :
    (lib : PeerLib) (peers : List PeerId) (payload : Bytes) (destination : Option PeerId)
    (events : List OutEvent)
    → IsDecoded lib
    → let o : Outgoing = record { payload = payload; destination = destination } in
      process_outbound_messages lib peers (OutEvent.out (out_message lib o) none ∷ events)
      ≡ noted (sent_to peers o) (process_outbound_messages lib peers events)
unfolding process_outbound_messages broadcast_peers on_out decoded
outbound-step lib peers payload none events is = refl
outbound-step lib peers payload (some p) events is =
    ground (arith, ne→false (lib.pretty p) [] (is.not_empty p), is.round_trip p)

-- While Broadcast returns no error, each message that has a binary form goes, in its turn, to the peer
-- that it names, or to all peers if it is a broadcast; and once the handler has closed its channel,
-- Done gets its value and the loop returns, if that value is taken.
pub outbound-routed :
    (lib : PeerLib) (peers : List PeerId) (outs : List Outgoing)
    → IsDecoded lib
    → process_outbound_messages lib peers
        (map (λ o. OutEvent.out (out_message lib o) none) outs ++ OutEvent.closed true ∷ [])
      ≡ (map (sent_to peers) outs ++ finished ∷ [], returned none)
unfolding process_outbound_messages
outbound-routed lib peers [] is = refl
outbound-routed lib peers (o ∷ outs) is =
    outbound-step lib peers o.payload o.destination _ is
    ∙ ap (noted (sent_to peers o)) (outbound-routed lib peers outs is)

-- ===== src/Ecdsa/Messages.antt =====
-- tss_util/tss/ecdsa/common/base.go and tss_util/tss/message/message.go: the messages between the
-- parties of the protocol.
pub mod Inbound
pub mod Outbound
use binance_tss_demo.Prelude.{
  Bool, true, false, Bytes, List, [], ◌∷◌, ◌++◌, Option, none, some, Result, ok, err,
  bytes_Comparable, if◌then◌else◌, codes,
}
use binance_tss_demo.Prelude.Maps.{lookup, insert}
use binance_tss_demo.Peers.{PeerId, PeerLib, peers_from_ids}
use binance_tss_demo.Message.{WrappedMessage}
use binance_tss_demo.Process.{Error, other, Failure}
use binance_tss_demo.Coordinator.Effects.{Outcome, waiting, returned}

pub record TssMessage : Type 0 where
  pub msg_bytes : Bytes
  pub is_broadcast : Bool

-- encoding/json on `TssMessage`.
pub record TssJson : Type 0 where
  pub marshal : TssMessage → Result Error Bytes
  pub unmarshal : Bytes → Result Error TssMessage

-- A call of UpdateFromBytes; `none` is a nil party id.
pub record Update : Type 0 where
  pub wire : Bytes
  pub party : Option Bytes
  pub broadcast : Bool

-- What such a call does to the party of tss-lib: it goes on, it refuses with what is returned, or it
-- panics.
pub data Updated (S : Type 0) : Type 0 where
  updated : S → Updated S
  refused : S → Failure → Updated S
  panicked : S → Bytes → Updated S

-- `PopulatePartyStore`: the ids of the parties, by which they are found.
unfoldable pub populate_party_store : List (Bytes × Bytes) → List Bytes → List (Bytes × Bytes)
populate_party_store store [] = store
populate_party_store store (id ∷ ids) = populate_party_store (insert id id store) ids

-- What the select of the inbound loop takes.
pub data InEvent : Type 0 where
  message : WrappedMessage → InEvent
  done : InEvent

module _ {S : Type 0} (lib : PeerLib) (json : TssJson) (update : S → Update → Updated S)
    (store : List (Bytes × Bytes)) where
  abbrev pub update_of : PeerId → TssMessage → Update
  update_of from m = record {
    wire = m.msg_bytes;
    party = lookup (lib.pretty from) store;
    broadcast = m.is_broadcast;
  }

  abbrev called : Update → S × List Update × Outcome → S × List Update × Outcome
  called u (s, us, out) = (s, u ∷ us, out)

  -- What one message does, given what the loop does from the party that it leaves; a panic is turned
  -- into an error.
  unfoldable pub on_updated :
      Update → Updated S → (S → S × List Update × Outcome) → S × List Update × Outcome
  on_updated u (updated s) next = called u (next s)
  on_updated u (refused s f) next = (s, u ∷ [], returned f)
  on_updated u (panicked s stack) next = (s, u ∷ [], returned (some (other stack)))

  unfoldable pub on_message :
      S
      → PeerId
      → Result Error TssMessage
      → (S → S × List Update × Outcome)
      → S × List Update × Outcome
  unfolding on_updated
  on_message s from (err e) next = (s, [], returned (some e))
  on_message s from (ok m) next = let u = update_of from m in on_updated u (update s u) next

  -- `ProcessInboundMessages`, with the calls that it makes.
  unfoldable pub process_inbound_messages : S → List InEvent → S × List Update × Outcome
  unfolding on_message
  process_inbound_messages s [] = (s, [], waiting)
  process_inbound_messages s (done ∷ events) = (s, [], returned none)
  process_inbound_messages s (message w ∷ events) =
      on_message s w.from (json.unmarshal w.payload) (λ s'. process_inbound_messages s' events)

-- A message that the party sends: its bytes with the routing's flag, its own flag, and the ids of the
-- parties it is to.
pub record OutMessage : Type 0 where
  pub wire_bytes : Result Error (Bytes × Bool)
  pub is_broadcast : Bool
  pub to : List Bytes

-- What the select of the outbound loop takes: a message, with what Broadcast will return for it.
pub data OutEvent : Type 0 where
  out : OutMessage → Failure → OutEvent
  done : OutEvent

-- A call of Broadcast.
pub record Sent : Type 0 where
  pub peers : List PeerId
  pub payload : Bytes

module _ (lib : PeerLib) (json : TssJson) (peers : List PeerId) where
  as_error : Result Bytes (List PeerId) → Result Error (List PeerId)
  as_error (ok ps) = ok ps
  as_error (err e) = err (other e)

  -- `BroadcastPeers`.
  unfoldable pub broadcast_peers : OutMessage → Result Error (List PeerId)
  unfolding as_error
  broadcast_peers m = if m.is_broadcast then ok peers else as_error (peers_from_ids lib m.to)

  -- What is sent for one message, or the error before Broadcast.
  encoded : Result Error (Bytes × Bool) → Result Error Bytes
  encoded (err e) = err e
  encoded (ok (wire, routed)) = json.marshal (record { msg_bytes = wire; is_broadcast = routed })

  addressed : Result Error Bytes → Result Error (List PeerId) → Result Error Sent
  addressed (err e) to = err e
  addressed (ok payload) (err e) = err e
  addressed (ok payload) (ok ps) = ok (record { peers = ps; payload = payload })

  unfoldable pub sent_for : OutMessage → Result Error Sent
  unfolding broadcast_peers encoded addressed
  sent_for m = addressed (encoded (m.wire_bytes)) (broadcast_peers m)

  -- What the loop does with it, given what Broadcast returns and what the loop does next.
  unfoldable pub on_sent : Result Error Sent → Failure → List Sent × Outcome → List Sent × Outcome
  on_sent (err e) failure next = ([], returned (some e))
  on_sent (ok x) (some e) next = (x ∷ [], returned (some e))
  on_sent (ok x) none (xs, outcome) = (x ∷ xs, outcome)

  -- `ProcessOutboundMessages`.
  unfoldable pub process_outbound_messages : List OutEvent → List Sent × Outcome
  unfolding sent_for on_sent
  process_outbound_messages [] = ([], waiting)
  process_outbound_messages (done ∷ events) = ([], returned none)
  process_outbound_messages (out m failure ∷ events) =
      let next = process_outbound_messages events in on_sent (sent_for m) failure next

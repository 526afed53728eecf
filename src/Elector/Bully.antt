-- ===== src/Elector/Bully.antt =====
-- tss_util/comm/elector/bully.go. The goroutines' loops are recursions over what the channels give
-- them; whether a wait is answered before its timer fires is the environment's choice.
pub mod Rank
pub mod Listen
pub mod Outcome
pub mod Agreement
use binance_tss_demo.Prelude.{
  ℕ, zero, suc, Bool, true, false, not, ◌&&◌, ◌||◌, Bytes, List, [], ◌∷◌, ◌++◌, map, ltb, ◌==◌,
  if◌then◌else◌, bytes_Comparable,
}
use binance_tss_demo.Peers.{PeerId, PeerLib}
use binance_tss_demo.Message.{
  MessageType, WrappedMessage, type_Comparable, coordinator_election_msg, coordinator_alive_msg,
  coordinator_select_msg,
}
use binance_tss_demo.Session.{PeerMsg, sort_peers_for_session, get_peer_ids}

-- `bullyCoordinatorElector` without its channels.
pub record Bully : Type 0 where
  pub session_id : Bytes
  pub host_id : PeerId
  pub coordinator : PeerId
  pub sorted_peers : List PeerMsg

-- A call of `Broadcast` in the session; its error is dropped.
pub record Sent : Type 0 where
  pub to : List PeerId
  pub message_type : MessageType

-- `NewBullyCoordinatorElector`.
unfoldable pub new_bully : Bytes → PeerId → Bully
new_bully session_id host = record {
  session_id = session_id;
  host_id = host;
  coordinator = host;
  sorted_peers = [];
}

-- The loop of `isPeerIDHigher` for one peer: the last index that matches, or what it was (0).
index_from : ℕ → ℕ → PeerId → List PeerMsg → ℕ
index_from i found p [] = found
index_from i found p (m ∷ ms) = index_from (suc i) (if p == m.id then i else found) p ms

unfoldable pub index : List PeerMsg → PeerId → ℕ
unfolding index_from
index ms p = index_from 0 0 p ms

unfoldable pub is_peer_id_higher : Bully → PeerId → PeerId → Bool
is_peer_id_higher bc p1 p2 = ltb (index bc.sorted_peers p1) (index bc.sorted_peers p2)

unfoldable pub set_coordinator : Bully → PeerId → Bully
unfolding is_peer_id_higher
set_coordinator bc id =
    if is_peer_id_higher bc id bc.coordinator || id == bc.host_id
    then record bc { coordinator = id }
    else bc

-- The first loop of `elect`: an election message for each higher peer.
challenge : Bully → List PeerMsg → List Sent
challenge bc [] = []
challenge bc (p ∷ ps) =
    let rest = challenge bc ps in
    if is_peer_id_higher bc p.id bc.host_id
    then record { to = p.id ∷ []; message_type = coordinator_election_msg } ∷ rest
    else rest

-- `elect`: `answered` tells if something comes on electionChan before ElectionWaitTime is over.
unfoldable pub elect : Bully → Bool → Bully × List Sent
unfolding challenge set_coordinator
elect bc answered =
    let asked = challenge bc bc.sorted_peers in
    if answered then (bc, asked) else (
      set_coordinator bc bc.host_id,
      asked
          ++ record { to = get_peer_ids bc.sorted_peers; message_type = coordinator_select_msg }
            ∷ [],
    )

-- One round of the loop of `startBullyCoordination`, for a message from receiveChan.
unfoldable pub on_received : Bully → WrappedMessage → Bool → Bully × List Sent
unfolding elect
on_received bc msg answered =
    if msg.message_type == coordinator_election_msg
      && not (is_peer_id_higher bc msg.from bc.host_id)
    then (let (bc', sent) = elect bc answered in
        (bc', record { to = msg.from ∷ []; message_type = coordinator_alive_msg } ∷ sent))
    else if msg.message_type == coordinator_select_msg
    then (set_coordinator bc msg.from, [])
    else (bc, [])

-- The messages received, each with the answer that an election which it starts would meet.
unfoldable pub receive_all : Bully → List (WrappedMessage × Bool) → Bully
unfolding on_received
receive_all bc [] = bc
receive_all bc ((msg, answered) ∷ rest) = receive_all (on_received bc msg answered).0 rest

-- `Coordinator` until BullyWaitTime is over. (errChan is never written to.)
unfoldable pub bully_coordinator :
    PeerLib → Bully → List PeerId → Bool → List (WrappedMessage × Bool) → PeerId
unfolding elect receive_all
bully_coordinator lib bc peers answered received =
    let bc' = record bc { sorted_peers = sort_peers_for_session lib peers bc.session_id } in
    (receive_all (elect bc' answered).0 received).coordinator

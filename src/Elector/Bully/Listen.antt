-- ===== src/Elector/Bully/Listen.antt =====
-- The loop of `listen`: where each message of the session goes, and what becomes of the replies to
-- an election.
use binance_tss_demo.Prelude.{
  ◌≡◌, refl, ap, ◌∙◌, Bool, true, false, not, ◌&&◌, ◌||◌, List, [], ◌∷◌, ◌++◌, bytes_Comparable,
  arith, ◌==◌, if◌then◌else◌,
}
use binance_tss_demo.Peers.{PeerId}
use binance_tss_demo.Session.{PeerMsg}
use binance_tss_demo.Message.{
  MessageType, WrappedMessage, type_Comparable, coordinator_alive_msg, coordinator_select_msg,
  coordinator_election_msg, coordinator_ping_response_msg, coordinator_ping_msg,
}
use binance_tss_demo.Elector.Bully.{
  Bully, Sent, index, is_peer_id_higher, challenge, elect, on_received,
}

-- The channel that takes a message, an answer to a ping, or nothing.
pub data Route : Type 0 where
  to_election_chan to_receive_chan to_ping_chan dropped : Route
  replies : PeerId → Route

-- The `switch`, in the source's order.
unfoldable pub listen : Bully → WrappedMessage → Route
listen bc msg = dispatch msg.message_type
  where
    dispatch : MessageType → Route
    dispatch coordinator_alive_msg =
        if is_peer_id_higher bc bc.host_id msg.from then to_election_chan else dropped
    dispatch coordinator_select_msg = to_receive_chan
    dispatch coordinator_election_msg = to_receive_chan
    dispatch coordinator_ping_response_msg = to_ping_chan
    dispatch coordinator_ping_msg = replies msg.from
    dispatch _ = dropped

-- Some message of a type is among those sent.
abbrev pub has_sent : MessageType → List Sent → Bool
has_sent t [] = false
has_sent t (s ∷ rest) = s.message_type == t || has_sent t rest

or_assoc : (a b c : Bool) → (a || (b || c)) ≡ ((a || b) || c)
or_assoc true b c = refl
or_assoc false b c = refl

has_sent-append :
    (t : MessageType) (xs ys : List Sent) → has_sent t (xs ++ ys) ≡ (has_sent t xs || has_sent t ys)
has_sent-append t [] ys = refl
has_sent-append t (x ∷ xs) ys =
    ap (λ b. x.message_type == t || b) (has_sent-append t xs ys)
    ∙ or_assoc (x.message_type == t) (has_sent t xs) (has_sent t ys)

challenge-no_alive :
    (bc : Bully) (ps : List PeerMsg) → has_sent coordinator_alive_msg (challenge bc ps) ≡ false
unfolding challenge
challenge-no_alive bc [] = refl
challenge-no_alive bc (p ∷ ps) = ground (arith, challenge-no_alive bc ps)

elect-no_alive :
    (bc : Bully) (answered : Bool) → has_sent coordinator_alive_msg (elect bc answered).1 ≡ false
unfolding elect
elect-no_alive bc true = challenge-no_alive bc bc.sorted_peers
elect-no_alive bc false = rw (
  has_sent-append coordinator_alive_msg (challenge bc bc.sorted_peers),
  challenge-no_alive bc bc.sorted_peers,
)

-- An alive message is sent to a peer exactly when its election message came and it is not higher.
pub on_received-alive :
    (bc : Bully) (msg : WrappedMessage) (answered : Bool)
    → has_sent coordinator_alive_msg (on_received bc msg answered).1 ≡ (
        msg.message_type == coordinator_election_msg
        && not (is_peer_id_higher bc msg.from bc.host_id))
unfolding on_received
on_received-alive bc msg answered = ground (arith, elect-no_alive bc answered)

-- The reply of one node to the election message of another is dropped by the other's listener, when
-- both have the same peers: it is sent by peers that are not lower, and taken from lower ones only.
pub alive_reply-dropped :
    (bidder replier : Bully) (msg reply : WrappedMessage) (answered : Bool)
    → bidder.sorted_peers ≡ replier.sorted_peers
    → msg.from ≡ bidder.host_id
    → has_sent coordinator_alive_msg (on_received replier msg answered).1 ≡ true
    → reply.message_type ≡ coordinator_alive_msg
    → reply.from ≡ replier.host_id
    → listen bidder reply ≡ dropped
unfolding listen is_peer_id_higher
alive_reply-dropped bidder replier msg reply answered same from sent alive by =
    ground (arith, on_received-alive replier msg answered, ap (λ ms. index ms msg.from) same)

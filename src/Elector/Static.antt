-- ===== src/Elector/Static.antt =====
-- tss_util/comm/elector/static.go: the first peer of the session order.
pub mod Agreement
use binance_tss_demo.Prelude.{Bytes, List, [], ◌∷◌}
use binance_tss_demo.Peers.{PeerId, PeerLib}
use binance_tss_demo.Session.{PeerMsg, sort_peers_for_session}

first_id : List PeerMsg → PeerId
first_id [] = []
first_id (m ∷ ms) = m.id

-- `Coordinator`: the error is always nil, and the empty id stands for no peer.
unfoldable pub static_coordinator : PeerLib → Bytes → List PeerId → PeerId
unfolding first_id
static_coordinator lib session_id peers = first_id (sort_peers_for_session lib peers session_id)

-- ===== src/Examples/Gate.antt =====
-- A gate for two peers.
use binance_tss_demo.Prelude.{◌≡◌, refl, false, [], ◌∷◌, bytes_Comparable}
use binance_tss_demo.Comm.Gate.{ConnectionGate, set_topology, intercept_peer_dial}
use binance_tss_demo.Topology.{NetworkTopology, is_allowed_peer}
use binance_tss_demo.Examples.World.{p1, p2, p3}

abbrev pair : NetworkTopology
pair = record {
  peers = record { id = p1; addrs = [] } ∷ record { id = p2; addrs = [] } ∷ [];
  threshold = 1;
}

abbrev closed : ConnectionGate
closed = record { topology = record { peers = []; threshold = 1 } }

dial_test : intercept_peer_dial (set_topology closed pair) p3 ≡ false
unfolding intercept_peer_dial set_topology is_allowed_peer
dial_test = refl

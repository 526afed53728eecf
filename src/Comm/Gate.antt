-- ===== src/Comm/Gate.antt =====
-- tss_util/comm/p2p/gater.go.
pub mod Members
use binance_tss_demo.Prelude.{
  ℕ, Bool, true, false, Bytes, List, [], ◌∷◌, ◌==◌, if◌then◌else◌, bytes_Comparable,
}
use binance_tss_demo.Peers.{PeerId}
use binance_tss_demo.Topology.{NetworkTopology, is_allowed_peer}

-- `ConnectionGate`, a shared object: a change of its topology is seen by every later test.
pub record ConnectionGate : Type 0 where
  pub topology : NetworkTopology

pub data Direction : Type 0 where
  inbound outbound : Direction

unfoldable pub set_topology : ConnectionGate → NetworkTopology → ConnectionGate
set_topology cg topology = record cg { topology = topology }

unfoldable pub intercept_peer_dial : ConnectionGate → PeerId → Bool
intercept_peer_dial cg p = is_allowed_peer cg.topology p

unfoldable pub intercept_secured : ConnectionGate → Direction → PeerId → Bool
intercept_secured cg nd p = is_allowed_peer cg.topology p

unfoldable pub intercept_addr_dial : ConnectionGate → PeerId → Bytes → Bool
intercept_addr_dial cg p addr = true

unfoldable pub intercept_accept : ConnectionGate → Bool
intercept_accept cg = true

unfoldable pub intercept_upgraded : ConnectionGate → Bool
intercept_upgraded cg = true

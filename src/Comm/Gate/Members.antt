-- ===== src/Comm/Gate/Members.antt =====
-- Who can connect.
use binance_tss_demo.Prelude.{
  ◌≡◌, refl, Bool, ◌&&◌, Bytes, List, [], ◌∷◌, bytes_Comparable, contains, map, arith,
}
use binance_tss_demo.Peers.{PeerId}
use binance_tss_demo.Comm.Gate.{
  ConnectionGate, Direction, inbound, outbound, set_topology, intercept_peer_dial,
  intercept_secured, intercept_addr_dial, intercept_accept, intercept_upgraded,
}
use binance_tss_demo.Topology.{AddrInfo, NetworkTopology, allowed_in, is_allowed_peer}

abbrev pub members : NetworkTopology → List PeerId
members nt = map (λ info. info.id) nt.peers

-- The tests that libp2p makes for a connection, in their order.
abbrev pub passes : ConnectionGate → Direction → PeerId → Bytes → Bool
passes cg inbound p addr =
    intercept_accept cg && intercept_secured cg inbound p && intercept_upgraded cg
passes cg outbound p addr =
    intercept_peer_dial cg p
    && intercept_addr_dial cg p addr
    && intercept_secured cg outbound p
    && intercept_upgraded cg

allowed_in-members :
    (infos : List AddrInfo) (p : PeerId)
    → allowed_in infos p ≡ contains (map (λ info. info.id) infos) p
unfolding allowed_in
allowed_in-members [] p = refl
allowed_in-members (info ∷ infos) p = ground (
  arith,
  allowed_in-members infos p,
  bytes_Comparable.equal_iff info.id p,
  bytes_Comparable.equal_iff p info.id,
)

-- A connection passes the gate, in either direction, exactly if its peer is in the topology that was
-- set last.
pub passes-members :
    (cg : ConnectionGate) (topology : NetworkTopology) (direction : Direction) (p : PeerId)
    (addr : Bytes)
    → passes (set_topology cg topology) direction p addr ≡ contains (members topology) p
unfolding set_topology intercept_peer_dial intercept_secured intercept_addr_dial intercept_accept
    intercept_upgraded is_allowed_peer
passes-members cg topology inbound p addr = ground (arith, allowed_in-members topology.peers p)
passes-members cg topology outbound p addr = ground (arith, allowed_in-members topology.peers p)

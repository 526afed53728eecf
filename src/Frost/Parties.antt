-- ===== src/Frost/Parties.antt =====
-- tss_util/tss/frost/common/util.go.
pub mod Members
use binance_tss_demo.Prelude.{
  Bytes, List, [], ◌∷◌, ◌++◌, map, contains, bytes_Comparable, if◌then◌else◌,
}
use binance_tss_demo.Peers.{PeerId, PeerLib}

-- `mapset.NewSet` with these elements: each once.
unfoldable pub new_set : List PeerId → List PeerId → List PeerId
new_set set [] = set
new_set set (p ∷ ps) = new_set (if contains set p then set else set ++ p ∷ []) ps

-- `PartyIDSFromPeers`. `to_slice` lists a set in the order that the map of the set happens to have.
unfoldable pub party_ids_from_peers :
    PeerLib → (List PeerId → List PeerId) → List PeerId → List Bytes
unfolding new_set
party_ids_from_peers lib to_slice peers = map lib.pretty (to_slice (new_set [] peers))

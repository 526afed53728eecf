-- ===== src/Peers.antt =====
-- Peer identities (go-libp2p's peer.ID) and the peer lists of
-- tss_util/tss/ecdsa/common/utils.go and tss_util/tss/util/sort.go.
pub mod Sets
pub mod Counting
use binance_tss_demo.Prelude.{
  Bool, true, false, not, ◌||◌, Bytes, List, [], ◌∷◌, ◌≡◌, Option, none, some, Result, ok, err,
  ◌==◌, if◌then◌else◌, contains, keep, bytes_Comparable, arith,
}

-- A Go `string` of raw bytes.
abbrev pub PeerId : Type 0
PeerId = Bytes

-- What the code calls of go-libp2p and go-ethereum: the text form of a peer, its decoding
-- (`none` is an error), and the hash.
pub record PeerLib : Type 0 where
  pub pretty : PeerId → Bytes
  pub decode : Bytes → Option PeerId
  pub keccak256 : Bytes → Bytes

-- The text form is one to one, as base58 is.
pub record IsPeerLib (lib : PeerLib) : Type 0 where
  pub pretty_injective : (p q : PeerId) → lib.pretty p ≡ lib.pretty q → p ≡ q

module _ (lib : PeerLib) where
  unfoldable pub is_participant : PeerId → List PeerId → Bool
  is_participant peer [] = false
  is_participant peer (p ∷ ps) = lib.pretty p == lib.pretty peer || is_participant peer ps

-- The loops skip by `continue` and append the rest.
unfoldable pub exclude_peers : List PeerId → List PeerId → List PeerId
exclude_peers peers excluded = keep (λ p. not (contains excluded p)) peers

unfoldable pub peers_intersection : List PeerId → List PeerId → List PeerId
peers_intersection old_peers new_peers = keep (contains new_peers) old_peers

-- `PeersFromIDS`, and `PeersFromParties` over the parties' ids: the first id that does not decode
-- ends the loop with its error.
module _ (lib : PeerLib) where
  unfoldable pub peers_from_ids : List Bytes → Result Bytes (List PeerId)
  peers_from_ids [] = ok []
  peers_from_ids (id ∷ ids) =
      let rest = peers_from_ids ids in
      elim (lib.decode id) [
        | none ↦ err id
        | some p ↦ elim rest [ ok ps ↦ ok (p ∷ ps) | err e ↦ err e ]
      ]

-- ===== src/Topology.antt =====
-- tss_util/topology/topology.go.
pub mod Accepted
pub mod Store
use binance_tss_demo.Prelude.{
  ℕ, zero, suc, Bool, true, false, Bytes, List, [], ◌∷◌, ◌==◌, if◌then◌else◌, bytes_Comparable,
  Option, none, some, Result, ok, err, ◌>>=◌, ℤ, pos, negsuc, codes, map, ◌++◌,
}
use binance_tss_demo.Strconv.ParseInt.{parse_int}
use binance_tss_demo.Peers.{PeerId}
use binance_tss_demo.Storage.{Json, File, read_file}

-- libp2p's peer.AddrInfo.
pub record AddrInfo : Type 0 where
  pub id : PeerId
  pub addrs : List Bytes

-- The threshold of a topology that is taken is positive.
pub record NetworkTopology : Type 0 where
  pub peers : List AddrInfo
  pub threshold : ℕ

-- The loop of `IsAllowedPeer`.
unfoldable pub allowed_in : List AddrInfo → PeerId → Bool
allowed_in [] peer = false
allowed_in (p ∷ ps) peer = let rest = allowed_in ps peer in if p.id == peer then true else rest

unfoldable pub is_allowed_peer : NetworkTopology → PeerId → Bool
unfolding allowed_in
is_allowed_peer nt peer = allowed_in nt.peers peer

pub record RawPeer : Type 0 where
  pub peer_address : Bytes

pub record RawTopology : Type 0 where
  pub peers : List RawPeer
  pub threshold : Bytes

-- `int(threshold)` with the test that it is not below 1.
checked_threshold : ℤ → Result Bytes ℕ
checked_threshold (pos zero) = err (codes "mpc threshold must be bigger then 0")
checked_threshold (pos (suc n)) = ok (suc n)
checked_threshold (negsuc n) = err (codes "mpc threshold must be bigger then 0")

-- What is read as a number; the error of the parser is left out of the message.
parsed : Option ℤ → Result Bytes ℤ
parsed none = err (codes "unable to parse mpc threshold from topology")
parsed (some z) = ok z

topology_of : List AddrInfo → Option ℤ → Result Bytes NetworkTopology
unfolding parsed checked_threshold
topology_of peers threshold_text = do
  number ← parsed threshold_text
  threshold ← checked_threshold number
  ok (record { peers = peers; threshold = threshold })

-- `addr_info` is libp2p's AddrInfoFromString.
module _ (addr_info : Bytes → Result Bytes AddrInfo) where
  -- The loop over the peers, which appends to those it has.
  unfoldable pub with_peers : List AddrInfo → List RawPeer → Result Bytes (List AddrInfo)
  with_peers peers [] = ok peers
  with_peers peers (p ∷ ps) = elim (addr_info p.peer_address) [
    | err e ↦ err (codes "invalid peer address " ++ p.peer_address)
    | ok info ↦ with_peers (peers ++ info ∷ []) ps
  ]

  unfoldable pub process_raw_topology : RawTopology → Result Bytes NetworkTopology
  unfolding with_peers topology_of
  process_raw_topology raw = do
    peers ← with_peers [] raw.peers
    topology_of peers (parse_int 64 raw.threshold)

  -- `NetworkTopology`, on what is read from the file of the path; its hash is not looked at.
  unfoldable pub network_topology :
      (json : Json RawTopology) (file : File) (hash : Bytes) → Result Bytes NetworkTopology
  unfolding process_raw_topology
  network_topology json file hash = do
    text ← read_file file
    raw ← json.unmarshal text
    process_raw_topology raw

-- ===== src/Ecdsa/Parties.antt =====
-- CreatePartyID and PartiesFromPeers of tss_util/tss/ecdsa/common/utils.go, and what the processes give
-- the protocol.
pub mod Own
use binance_tss_demo.Prelude.{
  ℕ, ◌+◌, ◌*◌, Bytes, List, [], ◌∷◌, Option, map, length, bytes_Comparable,
}
use binance_tss_demo.Prelude.Maps.{lookup}
use binance_tss_demo.Peers.{PeerId, PeerLib}
use binance_tss_demo.Ecdsa.Messages.{populate_party_store}

-- tss-lib's PartyID, with the fields that are read; the key is a part of what tss-lib sorts by.
pub record PartyId : Type 0 where
  pub id : Bytes
  pub index : ℕ

-- What is called of tss-lib: NewPartyID, with the moniker and the key, and SortPartyIDs.
pub record PartyLib : Type 0 where
  pub new_party_id : Bytes → Bytes → ℕ → PartyId
  pub sort_party_ids : List PartyId → List PartyId

-- `big.Int.SetBytes`: the bytes are the digits, the first the highest.
abbrev set_bytes : ℕ → Bytes → ℕ
set_bytes value [] = value
set_bytes value (b ∷ bs) = set_bytes (value * 256 + b) bs

unfoldable pub create_party_id : PartyLib → Bytes → PartyId
create_party_id tss peer_id = tss.new_party_id peer_id peer_id (set_bytes 0 peer_id)

unfoldable pub parties_from_peers : PeerLib → PartyLib → List PeerId → List PartyId
unfolding create_party_id
parties_from_peers lib tss peers =
    tss.sort_party_ids (map (λ p. create_party_id tss (lib.pretty p)) peers)

-- What NewParameters gets: the parties, that of the node, which is nil if it is not among them, their
-- number, and the threshold.
pub record TssParameters : Type 0 where
  pub parties : List PartyId
  pub own : Option Bytes
  pub party_count : ℕ
  pub threshold : ℕ

unfoldable pub tss_parameters : PeerLib → PartyLib → PeerId → List PeerId → ℕ → TssParameters
unfolding parties_from_peers
tss_parameters lib tss host_id peers threshold =
    let parties = parties_from_peers lib tss peers in
    record {
      parties = parties;
      own = lookup (lib.pretty host_id) (populate_party_store [] (map (λ p. p.id) parties));
      party_count = length parties;
      threshold = threshold;
    }

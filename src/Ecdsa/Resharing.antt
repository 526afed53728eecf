-- ===== src/Ecdsa/Resharing.antt =====
-- tss_util/tss/ecdsa/resharing/resharing.go: what is decided before the protocol, which is tss-lib's.
pub mod Accepts
pub mod Parties
pub mod Running
use binance_tss_demo.Prelude.{
  ℕ, ℤ, is_positive, is_below, Bool, true, false, not, ◌&&◌, Bytes, List, [], ◌∷◌, Option, none,
  some, Result, ok, err, length, keep, nat_eq, if◌then◌else◌, codes, text_less, ◌==◌,
  bytes_Comparable,
}
use binance_tss_demo.Peers.{PeerId, PeerLib, is_participant, peers_intersection}
use binance_tss_demo.Process.{Error, other, Failure}
use binance_tss_demo.Sort.{sort}

pub record StartParams : Type 0 where
  pub old_threshold : ℤ
  pub old_subset : List PeerId

-- encoding/json on start parameters; their encoding does not fail.
pub record ParamsJson : Type 0 where
  pub marshal : StartParams → Bytes
  pub unmarshal : Bytes → Result Error StartParams

-- `Resharing`: `peerstore` is what the host's peerstore holds now and `peers` what it held when the process
-- was made; without a key share the threshold is 0 and the peers of the key are none.
pub record Resharing : Type 0 where
  pub session_id : Bytes
  pub peerstore : List PeerId
  pub peers : List PeerId
  pub key_threshold : ℤ
  pub key_peers : List PeerId
  pub new_threshold : ℤ

-- `slices.Equal`.
abbrev pub peers_equal : List PeerId → List PeerId → Bool
peers_equal [] [] = true
peers_equal [] (q ∷ qs) = false
peers_equal (p ∷ ps) [] = false
peers_equal (p ∷ ps) (q ∷ qs) = p == q && peers_equal ps qs

-- `Ready`: the excluded peers are not looked at.
unfoldable pub ready : Resharing → List PeerId → List PeerId → Result Error Bool
ready r ready_peers excluded = ok (nat_eq (length ready_peers) (length r.peerstore))

-- `ValidCoordinators`: the peers of the peerstore with the text form of one that has the key.
unfoldable pub valid_coordinators : PeerLib → Resharing → List PeerId
valid_coordinators lib r = keep (λ p. is_participant lib p r.key_peers) r.peerstore

unfoldable pub start_params : ParamsJson → Resharing → List PeerId → Bytes
start_params json r ready_peers = json.marshal (record {
  old_threshold = r.key_threshold;
  old_subset = peers_intersection r.key_peers r.peerstore;
})

-- Both lists are sorted in place.
sorted : Resharing → Resharing
sorted r = record r { key_peers = sort text_less r.key_peers }

sorted_params : StartParams → StartParams
sorted_params params = record params { old_subset = sort text_less params.old_subset }

same_subset : Resharing → StartParams → Failure
same_subset r params =
    if not (nat_eq (length r.key_peers) 0)
      && not (peers_equal params.old_subset (peers_intersection r.key_peers r.peerstore))
    then some (other (codes "invalid peers subset in start params"))
    else none

unfoldable pub validate_start_params : Resharing → StartParams → Resharing × StartParams × Failure
unfolding sorted sorted_params same_subset
validate_start_params r params =
    if not (is_positive params.old_threshold)
    then (r, params, some (other (codes "threshold too small")))
    else if is_below (length params.old_subset) params.old_threshold
    then (r, params, some (other (codes "threshold bigger then subset")))
    else (sorted r, sorted_params params, same_subset (sorted r) (sorted_params params))

unfoldable pub unmarshall_start_params :
    ParamsJson → Resharing → Bytes → Resharing × Result Error StartParams
unfolding validate_start_params
unmarshall_start_params json r bytes = elim (json.unmarshal bytes) [
  | err e ↦ (r, err e)
  | ok params ↦
      let (r', params', failure) = validate_start_params r params in
      elim failure [ some e ↦ (r', err e) | none ↦ (r', ok params') ]
]

-- ===== src/Ecdsa/Resharing/Running.antt =====
-- tss_util/tss/ecdsa/resharing/resharing.go: NewResharing, what Run gives the protocol, and its end message.
pub mod Again
use binance_tss_demo.Prelude.{
  ℕ, ℤ, pos, Bool, false, Bytes, List, [], ◌∷◌, Option, none, some, Result, ok, err, map, length,
  ◌>>=◌, bytes_Comparable,
}
use binance_tss_demo.Prelude.Maps.{lookup}
use binance_tss_demo.Peers.{PeerId, PeerLib}
use binance_tss_demo.Process.{Failure, TssProcess}
use binance_tss_demo.Storage.{Json, File, Disk}
use binance_tss_demo.Keyshare.Ecdsa.{EcdsaKeyshare, store_keyshare}
use binance_tss_demo.Ecdsa.Messages.{populate_party_store}
use binance_tss_demo.Ecdsa.Parties.{PartyId, PartyLib, parties_from_peers}
use binance_tss_demo.Ecdsa.Keygen.{EndEvent, generated, ended, as_failure}
use binance_tss_demo.Ecdsa.Resharing.{
  ParamsJson, Resharing, StartParams, ready, valid_coordinators, start_params,
  unmarshall_start_params,
}
use binance_tss_demo.Ecdsa.Resharing.Parties.{sort_parties}

-- `fetched` is what GetKeyshare returns, while the lock is held.
unfoldable pub new_resharing :
    {Key : Type 0} → Bytes → ℤ → List PeerId → Result Bytes (EcdsaKeyshare Key) → Resharing
new_resharing session_id threshold peerstore (err e) = record {
  session_id = session_id;
  peerstore = peerstore;
  peers = peerstore;
  key_threshold = pos 0;
  key_peers = [];
  new_threshold = threshold;
}
new_resharing session_id threshold peerstore (ok key) = record {
  session_id = session_id;
  peerstore = peerstore;
  peers = peerstore;
  key_threshold = key.threshold;
  key_peers = key.peers;
  new_threshold = threshold;
}

-- What NewReSharingParameters gets: both lists of parties, that of the node, which is nil if it is not
-- among the new ones, and for the old and the new their number and their threshold.
pub record ResharingParameters : Type 0 where
  pub old_parties : List PartyId
  pub new_parties : List PartyId
  pub own : Option Bytes
  pub party_count : ℕ
  pub threshold : ℤ
  pub new_party_count : ℕ
  pub new_threshold : ℤ

-- A nil party among the new ones is a panic, when the store of parties is filled.
abbrev pub all_parties : List (Option PartyId) → Option (List PartyId)
all_parties [] = some []
all_parties (none ∷ ps) = none
all_parties (some p ∷ ps) =
    let rest = all_parties ps in elim rest [ none ↦ none | some qs ↦ some (p ∷ qs) ]

-- What `Run` makes of the start parameters; `none` is a panic.
unfoldable pub resharing_parameters :
    PeerLib → PartyLib → PeerId → Resharing → StartParams → Option ResharingParameters
unfolding parties_from_peers sort_parties
resharing_parameters lib tss host_id r params =
    let old = parties_from_peers lib tss params.old_subset in
    elim (sort_parties lib (parties_from_peers lib tss r.peerstore) old) [
      | none ↦ none
      | some sorted ↦ elim (all_parties sorted) [
        | none ↦ none
        | some parties ↦ some (record {
          old_parties = old;
          new_parties = parties;
          own = lookup (lib.pretty host_id) (populate_party_store [] (map (λ p. p.id) parties));
          party_count = length old;
          threshold = params.old_threshold;
          new_party_count = length parties;
          new_threshold = r.new_threshold;
        })
      ]
    ]

-- What `Run` returns: `protocol` is what the calls of tss-lib with the parameters and the pool return, the
-- first error if there is one, and `crash` stands for a panic. The validation of the parameters sorts the
-- peers of the key, in `unmarshall_start_params`.
unfoldable pub resharing_run :
    PeerLib
    → PartyLib
    → ParamsJson
    → PeerId
    → (ResharingParameters → Failure)
    → Failure
    → Resharing
    → Bool
    → Bytes
    → Failure
unfolding resharing_parameters
resharing_run lib tss json host_id protocol crash r coordinator bytes =
    elim ((unmarshall_start_params json r bytes).1) [
      | err e ↦ some e
      | ok params ↦ elim (resharing_parameters lib tss host_id r params) [
        | none ↦ crash
        | some parameters ↦ protocol parameters
      ]
    ]

-- The process as the coordinator sees it.
unfoldable pub resharing_process :
    PeerLib → ParamsJson → (Bool → Bytes → Failure) → Resharing → TssProcess
unfolding ready valid_coordinators start_params
resharing_process lib json run r = record {
  session_id = r.session_id;
  valid_coordinators = valid_coordinators lib r;
  retryable = false;
  ready = ready r;
  start_params = start_params json r;
  run = run;
}

-- `processEndMessage` with the file of the key share.
unfoldable pub process_end_message :
    {Key : Type 0}
    → Json (EcdsaKeyshare Key)
    → Disk
    → Resharing
    → EndEvent Key
    → File
    → File × Failure
process_end_message json disk r (generated key) file = as_failure (
    store_keyshare json disk (record { key = key; threshold = r.new_threshold; peers = r.peers })
      file)
process_end_message json disk r ended file = (file, none)

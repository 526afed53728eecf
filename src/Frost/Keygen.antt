-- ===== src/Frost/Keygen.antt =====
-- tss_util/tss/frost/keygen/keygen.go: what is decided before and after the protocol, which is
-- multi-party-sig's.
pub mod Everyone
use binance_tss_demo.Prelude.{
  ℤ, Bool, false, Bytes, List, [], ◌∷◌, ◌++◌, Option, none, some, Result, ok, err, length, ltb,
  nat_eq, if◌then◌else◌, codes,
}
use binance_tss_demo.Peers.{PeerId, PeerLib}
use binance_tss_demo.Process.{Error, other, TssProcess, Failure}
use binance_tss_demo.Storage.{Json, File, Disk}
use binance_tss_demo.Keyshare.Frost.{Curve, TaprootConfig, FrostKeyshareStore, store_keyshare}
use binance_tss_demo.Frost.Parties.{party_ids_from_peers}

-- `Keygen`; `peerstore` is what the host's peerstore holds now, `peers` what it held when the process
-- was made.
pub record Keygen : Type 0 where
  pub host_id : PeerId
  pub session_id : Bytes
  pub peerstore : List PeerId
  pub peers : List PeerId
  pub threshold : ℤ

-- `NewKeygen`, once it has the lock of the key share.
unfoldable pub new_keygen : Bytes → ℤ → PeerId → List PeerId → Keygen
new_keygen session_id threshold host_id peerstore = record {
  host_id = host_id;
  session_id = session_id;
  peerstore = peerstore;
  peers = peerstore;
  threshold = threshold;
}

unfoldable pub ready : Keygen → List PeerId → List PeerId → Result Error Bool
ready k ready_peers excluded =
    if ltb 0 (length excluded)
    then err (other (codes "error"))
    else ok (nat_eq (length ready_peers) (length k.peerstore))

-- What the protocol starts with.
pub record KeygenInput : Type 0 where
  pub id : Bytes
  pub party_ids : List Bytes
  pub threshold : ℤ
  pub session_id : Bytes

module _ (lib : PeerLib) (to_slice : List PeerId → List PeerId) where
  unfoldable pub keygen_input : Keygen → KeygenInput
  keygen_input k = record {
    id = lib.pretty k.host_id;
    party_ids = party_ids_from_peers lib to_slice (k.peerstore ++ k.host_id ∷ []);
    threshold = k.threshold;
    session_id = k.session_id;
  }

  -- The process as the coordinator sees it; `protocol` is what the pool returns for the protocol with
  -- an input.
  unfoldable pub keygen_process : (KeygenInput → Failure) → Keygen → TssProcess
  unfolding ready keygen_input
  keygen_process protocol k = record {
    session_id = k.session_id;
    valid_coordinators = k.peers;
    retryable = false;
    ready = ready k;
    start_params = λ ready_peers. [];
    run = λ coordinator params. protocol (keygen_input k);
  }

-- What the select of `processEndMessage` takes first: Done, with the result of the handler, or the end
-- of the context.
pub data EndEvent (A : Type 0) : Type 0 where
  finished : Result Error A → EndEvent A
  ended : EndEvent A

-- A store's error as the process returns it.
abbrev pub as_failure : File × Option Bytes → File × Failure
as_failure (file, none) = (file, none)
as_failure (file, some e) = (file, some (other e))

-- `processEndMessage` with the file of the key share.
unfoldable pub process_end_message :
    (curve : Curve)
    → Json FrostKeyshareStore
    → Disk
    → Keygen
    → EndEvent (TaprootConfig curve)
    → File
    → File × Failure
process_end_message curve json disk k (finished (err e)) file = (file, some e)
process_end_message curve json disk k (finished (ok config)) file = as_failure (
    store_keyshare curve json disk
      (record { key = config; threshold = k.threshold; peers = k.peers }) file)
process_end_message curve json disk k ended file = (file, none)

-- ===== src/Ecdsa/Keygen.antt =====
-- tss_util/tss/ecdsa/keygen/keygen.go: what the coordinator asks of the process.
pub mod Everyone
pub mod Stored
use binance_tss_demo.Prelude.{
  ℕ, Bool, true, false, Bytes, List, [], ◌∷◌, Result, ok, err, Option, none, some, pos, length, ltb,
  nat_eq, if◌then◌else◌, codes,
}
use binance_tss_demo.Peers.{PeerId, PeerLib}
use binance_tss_demo.Storage.{Json, File, Disk}
use binance_tss_demo.Keyshare.Ecdsa.{EcdsaKeyshare, store_keyshare}
use binance_tss_demo.Ecdsa.Parties.{PartyLib, TssParameters, tss_parameters}
use binance_tss_demo.Process.{Error, other, TssProcess, Failure}

-- `Keygen`; `peerstore` is what the host's peerstore holds now, the host among them, and `peers` what it
-- held when the process was made.
pub record Keygen : Type 0 where
  pub session_id : Bytes
  pub peerstore : List PeerId
  pub peers : List PeerId
  pub threshold : ℕ

unfoldable pub new_keygen : Bytes → ℕ → List PeerId → Keygen
new_keygen session_id threshold peerstore = record {
  session_id = session_id;
  peerstore = peerstore;
  peers = peerstore;
  threshold = threshold;
}

unfoldable pub ready : Keygen → List PeerId → List PeerId → Result Error Bool
ready k ready_peers excluded =
    if ltb 0 (length excluded)
    then err (other (codes "error"))
    else ok (nat_eq (length ready_peers) (length k.peerstore))

-- `run` is the protocol, of tss-lib.
unfoldable pub keygen_process : (Bool → Bytes → Failure) → Keygen → TssProcess
unfolding ready
keygen_process run k = record {
  session_id = k.session_id;
  valid_coordinators = k.peerstore;
  retryable = false;
  ready = ready k;
  start_params = λ ready_peers. [];
  run = run;
}

-- What `Run` returns: `protocol` is what the calls of tss-lib with the parameters and the pool return, the
-- first error if there is one.
unfoldable pub keygen_run :
    PeerLib → PartyLib → PeerId → (TssParameters → Failure) → Keygen → Bool → Bytes → Failure
unfolding tss_parameters
keygen_run lib tss host_id protocol k coordinator params =
    protocol (tss_parameters lib tss host_id k.peerstore k.threshold)

-- What the select of `processEndMessage` takes first: the key, or the end of the context.
pub data EndEvent (Key : Type 0) : Type 0 where
  generated : Key → EndEvent Key
  ended : EndEvent Key

-- A store's error as the process returns it.
abbrev pub as_failure : File × Option Bytes → File × Failure
as_failure (file, none) = (file, none)
as_failure (file, some e) = (file, some (other e))

-- `processEndMessage` with the file of the key share.
unfoldable pub process_end_message :
    {Key : Type 0} → Json (EcdsaKeyshare Key) → Disk → Keygen → EndEvent Key → File → File × Failure
process_end_message json disk k (generated key) file = as_failure (
    store_keyshare json disk (record { key = key; threshold = pos k.threshold; peers = k.peers })
      file)
process_end_message json disk k ended file = (file, none)

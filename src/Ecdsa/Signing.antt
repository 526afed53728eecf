-- ===== src/Ecdsa/Signing.antt =====
-- tss_util/tss/ecdsa/signing/signing.go: what the node decides before the protocol, which is
-- tss-lib's.
pub mod Running
pub mod Subset
pub mod Threshold
use binance_tss_demo.Prelude.{
  ℕ, zero, suc, ◌+◌, Bool, true, false, Bytes, List, [], ◌∷◌, ◌++◌, Result, ok, err, Option, none,
  some, length, contains, keep, nat_eq, if◌then◌else◌, bytes_Comparable, map,
}
use binance_tss_demo.Peers.{PeerId, PeerLib, is_participant}
use binance_tss_demo.Process.{Error, subset_error, TssProcess, Failure}
use binance_tss_demo.Session.{PeerMsg, sort_peers_for_session}

-- The JSON text of a list of peers; its encoding does not fail.
pub record PeersJson : Type 0 where
  pub marshal : List PeerId → Bytes
  pub unmarshal : Bytes → Result Error (List PeerId)

-- `Signing`, with the fields of BaseTss and of the key share that the methods read. A threshold is
-- not negative.
pub record Signing : Type 0 where
  pub host_id : PeerId
  pub session_id : Bytes
  pub key_peers : List PeerId
  pub threshold : ℕ
  pub peers : List PeerId
  pub coordinator : Bool

-- `readyParticipants`: the ready peers that hold a key share.
unfoldable pub ready_participants : Signing → List PeerId → List PeerId
ready_participants s ready_peers = keep (contains s.key_peers) ready_peers

-- `Ready`: the excluded peers are not looked at, and the error is nil.
unfoldable pub ready : Signing → List PeerId → List PeerId → Result Error Bool
unfolding ready_participants
ready s ready_peers excluded =
    ok (nat_eq (length (ready_participants s ready_peers)) (s.threshold + 1))

-- The loop of `StartParams`, which breaks when the subset is of the size wanted.
unfoldable pub choose : ℕ → List PeerId → List PeerMsg → List PeerId
choose size subset [] = subset
choose size subset (m ∷ ms) =
    let grown = subset ++ m.id ∷ [] in
    let rest = choose size grown ms in if nat_eq (length grown) size then grown else rest

module _ (lib : PeerLib) (json : PeersJson) where
  unfoldable pub peer_subset : Signing → List PeerId → List PeerId
  unfolding choose ready_participants
  peer_subset s ready_peers =
      choose (s.threshold + 1) []
        (sort_peers_for_session lib (ready_participants s ready_peers) s.session_id)

  unfoldable pub start_params : Signing → List PeerId → Bytes
  unfolding peer_subset
  start_params s ready_peers = json.marshal (peer_subset s ready_peers)

  -- `Run` up to the start of the party: the state, and the error that it returns.
  unfoldable pub run_until_party : Signing → Bool → Bytes → Signing × Failure
  run_until_party s coordinator params =
      let t = record s { coordinator = coordinator } in
      elim (json.unmarshal params) [
        | err e ↦ (t, some e)
        | ok subset ↦
            if is_participant lib s.host_id subset
            then (record t { peers = subset }, none)
            else (t, some (subset_error s.host_id))
      ]

  -- `party` is what the protocol returns from the state that it starts in.
  unfoldable run : (Signing → Failure) → Signing → Bool → Bytes → Failure
  unfolding run_until_party
  run party s coordinator params =
      let (t, f) = run_until_party s coordinator params in
      elim f [ some e ↦ some e | none ↦ party t ]

  -- The process as the coordinator sees it.
  unfoldable pub signing_process : (Signing → Failure) → Signing → TssProcess
  unfolding ready start_params run
  signing_process party s = record {
    session_id = s.session_id;
    valid_coordinators = s.key_peers;
    retryable = true;
    ready = ready s;
    start_params = start_params s;
    run = run party s;
  }

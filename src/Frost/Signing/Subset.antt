-- ===== src/Frost/Signing/Subset.antt =====
-- The signing subset, which is that of the ECDSA process.
use binance_tss_demo.Prelude.{
  ℕ, ◌+◌, ◌≡◌, refl, ap, pos, Bool, Bytes, List, [], ◌∷◌, ◌++◌, bytes_Comparable, arith,
}
use binance_tss_demo.Peers.{PeerId, PeerLib}
use binance_tss_demo.Session.{PeerMsg}
use binance_tss_demo.Keyshare.Frost.{Curve}
use binance_tss_demo.Ecdsa.Signing.{PeersJson}
use binance_tss_demo.Ecdsa
use binance_tss_demo.Frost.Signing.{
  is_size, ready_participants, ready, choose, peer_subset, start_params, run_until_party,
}
use binance_tss_demo.Frost

-- The ECDSA process with the same key share, for a threshold that is not negative.
abbrev pub as_ecdsa : {curve : Curve} → Frost.Signing.Signing curve → ℕ → Ecdsa.Signing.Signing
as_ecdsa s threshold = record {
  host_id = s.host_id;
  session_id = s.session_id;
  key_peers = s.key.peers;
  threshold = threshold;
  peers = s.peers;
  coordinator = s.coordinator;
}

choose-ecdsa :
    (threshold : ℕ) (subset : List PeerId) (ms : List PeerMsg)
    → choose (pos threshold) subset ms ≡ Ecdsa.Signing.choose (threshold + 1) subset ms
unfolding choose is_size Ecdsa.Signing.choose
choose-ecdsa threshold subset [] = refl
choose-ecdsa threshold subset (m ∷ ms) = rw (choose-ecdsa threshold (subset ++ m.id ∷ []) ms) refl

module _ {curve : Curve} (lib : PeerLib) (json : PeersJson) (s : Frost.Signing.Signing curve)
    (threshold : ℕ) (same : s.key.threshold ≡ pos threshold) where
  peer_subset-ecdsa :
      (ready_peers : List PeerId)
      → peer_subset lib json s ready_peers
        ≡ Ecdsa.Signing.peer_subset lib json (as_ecdsa s threshold) ready_peers
  unfolding peer_subset ready_participants Ecdsa.Signing.peer_subset
      Ecdsa.Signing.ready_participants
  peer_subset-ecdsa ready_peers = rw (same) (choose-ecdsa threshold [] _)

  ready-ecdsa :
      (ready_peers excluded : List PeerId)
      → ready s ready_peers excluded
        ≡ Ecdsa.Signing.ready (as_ecdsa s threshold) ready_peers excluded
  unfolding ready ready_participants is_size Ecdsa.Signing.ready Ecdsa.Signing.ready_participants
  ready-ecdsa ready_peers excluded = rw (same) refl

  run-ecdsa :
      (flag : Bool) (params : Bytes)
      → (run_until_party lib json s flag params).1
        ≡ (Ecdsa.Signing.run_until_party lib json (as_ecdsa s threshold) flag params).1
  unfolding run_until_party Ecdsa.Signing.run_until_party
  run-ecdsa flag params = ground arith

  -- A FROST signing with a threshold that is not negative is ready, chooses the subset, and refuses to
  -- run with the start parameters that it gets, exactly as an ECDSA signing with the same peers of the
  -- key share and the same threshold does.
  pub signing-ecdsa :
      (ready_peers excluded : List PeerId) (flag : Bool) (params : Bytes)
      → (ready s ready_peers excluded
          ≡ Ecdsa.Signing.ready (as_ecdsa s threshold) ready_peers excluded)
        × (start_params lib json s ready_peers
            ≡ Ecdsa.Signing.start_params lib json (as_ecdsa s threshold) ready_peers)
        × ((run_until_party lib json s flag params).1
            ≡ (Ecdsa.Signing.run_until_party lib json (as_ecdsa s threshold) flag params).1)
  unfolding start_params Ecdsa.Signing.start_params
  signing-ecdsa ready_peers excluded flag params = (
    ready-ecdsa ready_peers excluded,
    ap json.marshal (peer_subset-ecdsa ready_peers),
    run-ecdsa flag params,
  )

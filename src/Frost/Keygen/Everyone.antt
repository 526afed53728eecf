-- ===== src/Frost/Keygen/Everyone.antt =====
-- FROST key generation waits for every peer.
use binance_tss_demo.Prelude.{
  ◌≡◌, true, Bytes, List, [], ◌∷◌, ok, length, arith, contains, bytes_Comparable,
}
use binance_tss_demo.Peers.{PeerId, PeerLib}
use binance_tss_demo.Process.{Failure, TssProcess, Runtime}
use binance_tss_demo.Coordinator.Effects.{IsIn, runs}
use binance_tss_demo.Coordinator.Initiate.{InitiateEvent, initiate}
use binance_tss_demo.Coordinator.Initiate.Ready.{senders}
use binance_tss_demo.Coordinator.Initiate.Everyone.{runs-everyone}
use binance_tss_demo.Frost.Keygen.{KeygenInput, Keygen, ready, keygen_process}

ready_all :
    (k : Keygen) (peers excluded : List PeerId)
    → ready k peers excluded ≡ ok true
    → (length peers ≡ length k.peerstore) × (excluded ≡ [])
unfolding ready
ready_all k peers [] h = ground arith
ready_all k peers (p ∷ ps) h = absurd (ground arith)

-- A coordinator runs FROST key generation only if no peer is excluded and each peer of its peerstore,
-- but for itself, has sent a ready message, when ready messages come from peers of the peerstore only.
pub frost_keygen-everyone :
    (rt : Runtime) (lib : PeerLib) (to_slice : List PeerId → List PeerId)
    (protocol : KeygenInput → Failure) (k : Keygen) (processes : List TssProcess)
    (excluded : List PeerId) (host : PeerId) (events : List InitiateEvent) (params : Bytes)
    → ((p : PeerId) → contains (host ∷ senders events) p ≡ true → contains k.peerstore p ≡ true)
    → IsIn
        (runs true params)
        (initiate rt (keygen_process lib to_slice protocol k) processes excluded host events).0
    → (excluded ≡ [])
      × ((p : PeerId) → contains k.peerstore p ≡ true → contains (host ∷ senders events) p ≡ true)
unfolding keygen_process
frost_keygen-everyone rt lib to_slice protocol k processes excluded host events params =
    runs-everyone rt (keygen_process lib to_slice protocol k) k.peerstore processes excluded host
      events params (ready_all k)

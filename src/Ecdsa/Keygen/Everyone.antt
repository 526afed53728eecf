-- ===== src/Ecdsa/Keygen/Everyone.antt =====
-- Key generation waits for every peer.
use binance_tss_demo.Prelude.{
  ◌≡◌, Bool, true, Bytes, List, [], ◌∷◌, ok, length, arith, contains, bytes_Comparable,
}
use binance_tss_demo.Peers.{PeerId}
use binance_tss_demo.Process.{Failure, TssProcess, Runtime}
use binance_tss_demo.Coordinator.Effects.{IsIn, runs}
use binance_tss_demo.Coordinator.Initiate.{InitiateEvent, initiate}
use binance_tss_demo.Coordinator.Initiate.Ready.{senders}
use binance_tss_demo.Coordinator.Initiate.Everyone.{runs-everyone}
use binance_tss_demo.Ecdsa.Keygen.{Keygen, ready, keygen_process}

ready_all :
    (k : Keygen) (peers excluded : List PeerId)
    → ready k peers excluded ≡ ok true
    → (length peers ≡ length k.peerstore) × (excluded ≡ [])
unfolding ready
ready_all k peers [] h = ground arith
ready_all k peers (p ∷ ps) h = absurd (ground arith)

-- A coordinator runs key generation only if no peer is excluded and each peer of its peerstore, but
-- for itself, has sent a ready message, when ready messages come from peers of the peerstore only.
pub keygen-everyone :
    (rt : Runtime) (k : Keygen) (run : Bool → Bytes → Failure) (processes : List TssProcess)
    (excluded : List PeerId) (host : PeerId) (events : List InitiateEvent) (params : Bytes)
    → ((p : PeerId) → contains (host ∷ senders events) p ≡ true → contains k.peerstore p ≡ true)
    → IsIn (runs true params) (initiate rt (keygen_process run k) processes excluded host events).0
    → (excluded ≡ [])
      × ((p : PeerId) → contains k.peerstore p ≡ true → contains (host ∷ senders events) p ≡ true)
unfolding keygen_process
keygen-everyone rt k run processes excluded host events params =
    runs-everyone rt (keygen_process run k) k.peerstore processes excluded host events params
      (ready_all k)

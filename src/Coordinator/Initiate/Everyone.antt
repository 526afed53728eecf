-- ===== src/Coordinator/Initiate/Everyone.antt =====
-- A process that asks for every peer.
use binance_tss_demo.Prelude.{
  ◌≡◌, inl, inr, true, Bytes, List, [], ◌∷◌, ok, length, arith, contains, bytes_Comparable,
}
use binance_tss_demo.Peers.{PeerId}
use binance_tss_demo.Peers.Counting.{contained-all}
use binance_tss_demo.Process.{TssProcess, Runtime}
use binance_tss_demo.Coordinator.Effects.{IsIn, runs}
use binance_tss_demo.Coordinator.Initiate.{InitiateEvent, initiate}
use binance_tss_demo.Coordinator.Initiate.Ready.{senders, initiate-Started}

-- A process that is ready only with as many peers as the peerstore has, and none excluded.
abbrev pub IsForAll : TssProcess → List PeerId → Type 0
IsForAll process peerstore =
    (peers excluded : List PeerId)
    → process.ready peers excluded ≡ ok true
    → (length peers ≡ length peerstore) × (excluded ≡ [])

-- Then a run has heard of each peer of the peerstore.
pub runs-everyone :
    (rt : Runtime) (process : TssProcess) (peerstore : List PeerId) (processes : List TssProcess)
    (excluded : List PeerId) (host : PeerId) (events : List InitiateEvent) (params : Bytes)
    → IsForAll process peerstore
    → ((p : PeerId) → contains (host ∷ senders events) p ≡ true → contains peerstore p ≡ true)
    → IsIn (runs true params) (initiate rt process processes excluded host events).0
    → (excluded ≡ [])
      × ((p : PeerId) → contains peerstore p ≡ true → contains (host ∷ senders events) p ≡ true)
runs-everyone rt process peerstore processes excluded host events params for_all known h =
    let s = initiate-Started rt process processes excluded host events params h in
    let (same, none_excluded) = for_all s.peers excluded s.is_ready in
    let heard = λ (p : PeerId) (c : contains s.peers p ≡ true).
      elim (s.allowed p c) as (λ x. contains (host ∷ senders events) p ≡ true) [
        | inl a ↦ ground arith
        | inr b ↦ ground arith
      ] in
    (
      none_excluded,
      λ p c.
          heard p
            (contained-all s.peers peerstore s.distinct (λ q d. known q (heard q d)) same p c),
    )

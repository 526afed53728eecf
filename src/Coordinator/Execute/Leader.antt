-- ===== src/Coordinator/Execute/Leader.antt =====
-- Who leads the first attempt.
use binance_tss_demo.Prelude.{
  ◌≡◌, inl, inr, refl, sym, ◌∙◌, true, Bytes, List, [], Perm, bytes_Comparable,
}
use mathlib.Core.Path.{subst}
use binance_tss_demo.Peers.{PeerId, PeerLib, IsPeerLib}
use binance_tss_demo.Process.{TssProcess, Runtime}
use binance_tss_demo.Sort.Unique.{Apart}
use binance_tss_demo.Session.Order.{session_key}
use binance_tss_demo.Elector.Static.{static_coordinator}
use binance_tss_demo.Elector.Static.Agreement.{static_coordinator-agree}
use binance_tss_demo.Coordinator.Effects.{IsIn, runs}
use binance_tss_demo.Coordinator.Execute.{Script, first_round}
use binance_tss_demo.Coordinator.Execute.Blame.{both-IsIn, watch_execution-idle, start-Started}

module _ (lib : PeerLib) (good : IsPeerLib lib) (rt : Runtime) where
  -- Only the static coordinator runs a first attempt as the coordinator.
  first_round-leader :
      (host : PeerId) (process : TssProcess) (processes : List TssProcess) (script : Script)
      (params : Bytes)
      → IsIn (runs true params) (first_round lib rt host process processes script).0
      → static_coordinator lib process.session_id process.valid_coordinators ≡ host
  unfolding first_round
  first_round-leader host process processes script params h =
      let c = static_coordinator lib process.session_id process.valid_coordinators in
      elim (both-IsIn rt (runs true params) _ _ h) [
        | inl i ↦
            good.pretty_injective c host
              ((start-Started lib rt host process processes c [] script.first params i).0)
        | inr i ↦ absurd (watch_execution-idle lib c script.first.to_watch true params i)
      ]

  -- Of the nodes that run one session with the same valid coordinators, in whatever order each has
  -- them, at most one runs its first attempt as the coordinator, when peers of one hash are one peer.
  pub one_leader :
      (h1 h2 : PeerId) (p1 p2 : TssProcess) (ps1 ps2 : List TssProcess) (s1 s2 : Script)
      (params1 params2 : Bytes)
      → p1.session_id ≡ p2.session_id
      → Apart (session_key lib p1.session_id) p1.valid_coordinators
      → Perm p1.valid_coordinators p2.valid_coordinators
      → IsIn (runs true params1) (first_round lib rt h1 p1 ps1 s1).0
      → IsIn (runs true params2) (first_round lib rt h2 p2 ps2 s2).0
      → h1 ≡ h2
  one_leader h1 h2 p1 p2 ps1 ps2 s1 s2 params1 params2 same apart perm i j =
      sym (first_round-leader h1 p1 ps1 s1 params1 i)
      ∙ static_coordinator-agree lib p1.session_id p1.valid_coordinators p2.valid_coordinators apart
          perm
      ∙ subst
          (λ sid.
            static_coordinator lib sid p2.valid_coordinators
            ≡ static_coordinator lib p2.session_id p2.valid_coordinators)
          (sym same) refl
      ∙ first_round-leader h2 p2 ps2 s2 params2 j

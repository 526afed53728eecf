-- ===== src/Coordinator/Execute/Blame.antt =====
-- What a retry learns from the failure before it.
use binance_tss_demo.Prelude.{
  ◌≡◌, ◌⊎◌, inl, inr, refl, Bool, true, false, Bytes, List, [], ◌∷◌, Result, ok, err,
  bytes_Comparable, arith, if◌then◌else◌, ◌==◌,
}
use binance_tss_demo.Peers.{PeerId, PeerLib, peers_from_ids}
use binance_tss_demo.Process.{
  TssProcess, Runtime, Error, coordinator_error, communication_error, tss_error, subset_error,
  other,
}
use binance_tss_demo.Coordinator.Effects.{
  Effect, Log, Outcome, IsIn, IsIn-append, runs, waiting, returned,
}
use mathlib.Core.Path.{subst}
use binance_tss_demo.Coordinator.Initiate.{initiate}
use binance_tss_demo.Coordinator.Initiate.Ready.{Started, senders, initiate-Started}
use binance_tss_demo.Coordinator.Await.{wait_for_start, WatchEvent, closed, watch_execution}
use binance_tss_demo.Coordinator.Await.Trust.{wait_for_start-participant}
use binance_tss_demo.Coordinator.Execute.{
  Script, Round, both, start, retry, watched, retry_without, handle_error,
}

-- The peers that an error blames: a silent coordinator, or tss-lib's culprits.
pub blamed : PeerLib → Error → List PeerId
blamed lib (coordinator_error p) = p ∷ []
blamed lib (tss_error culprits) = elim (peers_from_ids lib culprits) [ ok ps ↦ ps | err e ↦ [] ]
blamed lib (communication_error p) = []
blamed lib (subset_error p) = []
blamed lib (other e) = []

pub both-IsIn :
    (rt : Runtime) (e : Effect) (a b : Log × Outcome)
    → IsIn e (both rt a b).0
    → IsIn e a.0 ⊎ IsIn e b.0
unfolding both
both-IsIn rt e (l, returned f) (m, returned g) h = IsIn-append e l m h
both-IsIn rt e (l, returned f) (m, waiting) h = IsIn-append e l m h
both-IsIn rt e (l, waiting) (m, returned g) h = IsIn-append e l m h
both-IsIn rt e (l, waiting) (m, waiting) h = IsIn-append e l m h

pub watch_execution-idle :
    (lib : PeerLib) (coordinator : PeerId) (events : List WatchEvent) (flag : Bool) (params : Bytes)
    → IsIn (runs flag params) (watch_execution lib coordinator events).0
    → ⊥
unfolding watch_execution
watch_execution-idle lib coordinator events flag params h = ground arith

module _ (lib : PeerLib) (rt : Runtime) (host : PeerId) (process : TssProcess)
    (processes : List TssProcess) where
  pub start-Started :
      (coordinator : PeerId) (excluded : List PeerId) (round : Round) (params : Bytes)
      → IsIn (runs true params) (start lib rt host process processes coordinator excluded round).0
      → (lib.pretty coordinator ≡ lib.pretty host)
        × Started process excluded (host ∷ []) (senders round.to_initiate) params
  unfolding start
  start-Started coordinator excluded round params h =
      chosen (lib.pretty coordinator == lib.pretty host)
        (bytes_Comparable.equal_iff (lib.pretty coordinator) (lib.pretty host)).0 h
    where
      chosen :
          (b : Bool)
          → (b ≡ true → lib.pretty coordinator ≡ lib.pretty host)
          → IsIn
              (runs true params)
              (if b
                then initiate rt process processes excluded host round.to_initiate
                else wait_for_start rt (process ∷ processes) coordinator round.to_await).0
          → (lib.pretty coordinator ≡ lib.pretty host)
            × Started process excluded (host ∷ []) (senders round.to_initiate) params
      chosen true e i =
          (e refl, initiate-Started rt process processes excluded host round.to_initiate params i)
      chosen false e i =
          absurd (
            wait_for_start-participant rt (process ∷ processes) coordinator round.to_await params i)

  retry_without-Started :
      (script : Script) (r : Result Bytes (List PeerId)) (params : Bytes)
      → IsIn (runs true params) (retry_without lib rt host process processes script r).0
      → (excluded : List PeerId) × (r ≡ ok excluded)
        × Started process excluded (host ∷ []) (senders script.again.to_initiate) params
  unfolding retry_without retry watched
  retry_without-Started script (err e) params h =
      absurd (watch_execution-idle lib [] (closed ∷ []) true params h)
  retry_without-Started script (ok excluded) params h =
      elim (both-IsIn rt (runs true params) _ _ h) [
        | inl i ↦ (excluded, refl, (start-Started _ excluded script.again params i).1)
        | inr i ↦ absurd (watch_execution-idle lib [] script.again.to_watch true params i)
      ]

  -- A coordinator of a retry runs the processes only with the start parameters of peers that are
  -- ready and that the failure before does not blame (but for the coordinator itself).
  pub handle_error-Started :
      (script : Script) (e : Error) (params : Bytes)
      → IsIn (runs true params) (handle_error lib rt host process processes script e).0
      → Started process (blamed lib e) (host ∷ []) (senders script.again.to_initiate) params
  unfolding handle_error blamed
  handle_error-Started script (coordinator_error p) params h =
      let (ex, e, s) = retry_without-Started script (ok (p ∷ [])) params h in
      subst (λ x. Started process x (host ∷ []) (senders script.again.to_initiate) params) (cc) s
  handle_error-Started script (communication_error p) params h =
      let (ex, e, s) = retry_without-Started script (ok []) params h in
      subst (λ x. Started process x (host ∷ []) (senders script.again.to_initiate) params) (cc) s
  handle_error-Started script (tss_error culprits) params h =
      let (ex, e, s) = retry_without-Started script (peers_from_ids lib culprits) params h in
      rw (e, blamed) s
  handle_error-Started script (subset_error p) params h =
      elim (both-IsIn rt (runs true params) _ _ h) [
        | inl i ↦
            absurd (
              wait_for_start-participant rt (process ∷ processes) [] script.again.to_await params i)
        | inr i ↦ absurd (watch_execution-idle lib [] script.again.to_watch true params i)
      ]
  handle_error-Started script (other e) params h =
      absurd (watch_execution-idle lib [] (closed ∷ []) true params h)

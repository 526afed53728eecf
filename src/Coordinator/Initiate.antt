-- ===== src/Coordinator/Initiate.antt =====
-- `initiate` of tss_util/tss/coordinator.go: the coordinator's own loop.
pub mod Ready
pub mod Everyone
use binance_tss_demo.Prelude.{
  Bool, true, false, not, ◌&&◌, Bytes, List, [], ◌∷◌, ◌++◌, Option, none, some, Result, ok, err,
  map, contains, if◌then◌else◌, bytes_Comparable,
}
use binance_tss_demo.Peers.{PeerId}
use binance_tss_demo.Message.{tss_ready_msg}
use binance_tss_demo.Process.{Error, TssProcess, Runtime}
use binance_tss_demo.Coordinator.Effects.{
  Effect, Log, Outcome, subscribed, unsubscribed, initiate_sent, start_sent, runs, waiting,
  returned,
}

-- What the select takes: a ready message, the ticker, or the end of the context.
pub data InitiateEvent : Type 0 where
  ready_msg : PeerId → InitiateEvent
  tick done : InitiateEvent

-- A ready peer is added once, and never if it is excluded.
unfoldable pub add_ready : List PeerId → List PeerId → PeerId → List PeerId
add_ready excluded ready_peers from =
    if not (contains excluded from) && not (contains ready_peers from)
    then ready_peers ++ from ∷ []
    else ready_peers

module _ (rt : Runtime) (process : TssProcess) (processes : List TssProcess)
    (excluded : List PeerId) where
  -- The start message, and the processes.
  unfoldable pub start_all : List PeerId → Log × Outcome
  start_all ready_peers =
      let params = process.start_params ready_peers in
      elim (rt.marshal_start params) [
        | err e ↦ ([], returned (some e))
        | ok bytes ↦ (
          start_sent bytes ∷ runs true params ∷ [],
          returned (rt.pool_wait (map (λ p. p.run true params) (process ∷ processes))),
        )
      ]

  abbrev and_then : Effect → Log × Outcome → Log × Outcome
  and_then e (log, out) = (e ∷ log, out)

  -- The loop. `on_ready` is the case of a ready message, given what the loop does next.
  unfoldable pub on_ready : List PeerId → Result Error Bool → Log × Outcome → Log × Outcome
  unfolding start_all
  on_ready ready_peers (err e) next = ([], returned (some e))
  on_ready ready_peers (ok false) next = next
  on_ready ready_peers (ok true) next = start_all ready_peers

  unfoldable pub initiate_loop : List PeerId → List InitiateEvent → Log × Outcome
  unfolding on_ready add_ready
  initiate_loop ready_peers [] = ([], waiting)
  initiate_loop ready_peers (ready_msg from ∷ events) =
      let next = initiate_loop (add_ready excluded ready_peers from) events in
      on_ready (add_ready excluded ready_peers from)
        (process.ready (add_ready excluded ready_peers from) excluded) next
  initiate_loop ready_peers (tick ∷ events) =
      and_then initiate_sent (initiate_loop ready_peers events)
  initiate_loop ready_peers (done ∷ events) = ([], returned none)

  -- The deferred calls run when the loop has returned.
  abbrev leaving : Effect → Log × Outcome → Log × Outcome
  leaving e (log, waiting) = (log, waiting)
  leaving e (log, returned f) = (log ++ e ∷ [], returned f)

  unfoldable pub initiate : PeerId → List InitiateEvent → Log × Outcome
  unfolding initiate_loop
  initiate host events = and_then (subscribed tss_ready_msg) (
      and_then initiate_sent
        (leaving (unsubscribed tss_ready_msg) (initiate_loop (host ∷ []) events)))

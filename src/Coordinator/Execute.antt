-- ===== src/Coordinator/Execute.antt =====
-- `Execute`, `handleError`, `retry` and `start` of tss_util/tss/coordinator.go.
pub mod Release
pub mod Blame
pub mod Leader
pub mod Quiet
pub mod Stops
use binance_tss_demo.Prelude.{
  Bool, true, false, not, Bytes, List, [], ◌∷◌, ◌++◌, Option, none, some, Result, ok, err, map,
  ◌==◌, if◌then◌else◌, bytes_Comparable, codes,
}
use binance_tss_demo.Prelude.Maps.{lookup, insert}
use binance_tss_demo.Peers.{PeerId, PeerLib, exclude_peers, peers_from_ids}
use binance_tss_demo.Message.{WrappedMessage}
use binance_tss_demo.Elector.Static.{static_coordinator}
use binance_tss_demo.Elector.Bully.{new_bully, bully_coordinator}
use binance_tss_demo.Process.{
  Error, coordinator_error, communication_error, tss_error, subset_error, other, Failure,
  TssProcess, Runtime,
}
use binance_tss_demo.Coordinator.Effects.{
  Effect, Log, Outcome, session_closed, stopped, waiting, returned,
}
use binance_tss_demo.Coordinator.Initiate.{InitiateEvent, initiate}
use binance_tss_demo.Coordinator.Await.{
  AwaitEvent, wait_for_start, WatchEvent, closed, watch_execution,
}

-- `Coordinator`: the node's id and `pendingProcesses`.
pub record Coordinator : Type 0 where
  pub host_id : PeerId
  pub pending : List (Bytes × Bool)

-- What the channels give the loops of one attempt, and of the election before a retry.
pub record Round : Type 0 where
  pub to_initiate : List InitiateEvent
  pub to_await : List AwaitEvent
  pub to_watch : List WatchEvent

pub record Script : Type 0 where
  pub first : Round
  pub again : Round
  pub answered : Bool
  pub received : List (WrappedMessage × Bool)

stops : List TssProcess → Log
stops [] = []
stops (p ∷ ps) = stopped p.session_id ∷ stops ps

-- The deferred function of `Execute`.
unfoldable pub release :
    TssProcess → List TssProcess → Coordinator → Log × Outcome → Coordinator × Log × Outcome
unfolding stops
release process processes c (log, waiting) = (c, log, waiting)
release process processes c (log, returned f) = (
  record c { pending = insert process.session_id false c.pending },
  log ++ session_closed process.session_id ∷ stops (process ∷ processes),
  returned f,
)

-- Two tasks of a pool: it waits for both. (The logs stand one after the other, though the tasks run
-- side by side.)
unfoldable pub both : Runtime → Log × Outcome → Log × Outcome → Log × Outcome
both rt (l, returned f) (m, returned g) = (l ++ m, returned (rt.pool_wait (f ∷ g ∷ [])))
both rt (l, waiting) (m, out) = (l ++ m, waiting)
both rt (l, returned f) (m, waiting) = (l ++ m, waiting)

module _ (lib : PeerLib) (rt : Runtime) (host : PeerId) (process : TssProcess)
    (processes : List TssProcess) where
  unfoldable pub start : PeerId → List PeerId → Round → Log × Outcome
  start coordinator excluded round =
      if lib.pretty coordinator == lib.pretty host
      then initiate rt process processes excluded host round.to_initiate
      else wait_for_start rt (process ∷ processes) coordinator round.to_await

  -- The elector's error is always nil.
  unfoldable pub retry : Script → List PeerId → Log × Outcome
  unfolding start
  retry script excluded =
      start
        (bully_coordinator lib (new_bully process.session_id host)
          (exclude_peers process.valid_coordinators excluded) script.answered script.received)
        excluded script.again

  unfoldable pub watched : Script → Log × Outcome
  watched script = watch_execution lib [] script.again.to_watch

  -- A return before `Wait` ends the context of the watch, which has been started.
  abbrev pub unwatched : Log
  unwatched = (watch_execution lib [] (closed ∷ [])).0

  unfoldable pub retry_without : Script → Result Bytes (List PeerId) → Log × Outcome
  unfolding retry watched
  retry_without script (ok excluded) = both rt (retry script excluded) (watched script)
  retry_without script (err e) = (unwatched, returned (some (other e)))

  unfoldable pub handle_error : Script → Error → Log × Outcome
  unfolding retry_without
  handle_error script (coordinator_error p) = retry_without script (ok (p ∷ []))
  handle_error script (communication_error p) = retry_without script (ok [])
  handle_error script (tss_error culprits) = retry_without script (peers_from_ids lib culprits)
  handle_error script (subset_error p) =
      both rt (wait_for_start rt (process ∷ processes) [] script.again.to_await) (watched script)
  handle_error script (other e) = (unwatched, returned (some (other e)))

  unfoldable pub first_round : Script → Log × Outcome
  unfolding start
  first_round script =
      let coordinator = static_coordinator lib process.session_id process.valid_coordinators in
      both rt (start coordinator [] script.first)
        (watch_execution lib coordinator script.first.to_watch)

  unfoldable pub after_first : Script → Log × Outcome → Log × Outcome
  unfolding handle_error
  after_first script (log, waiting) = (log, waiting)
  after_first script (log, returned none) = (log, returned none)
  after_first script (log, returned (some e)) =
      if process.retryable
      then (let (more, out) = handle_error script e in (log ++ more, out))
      else (log, returned (some e))

abbrev pub is_pending : Bytes → Coordinator → Bool
is_pending session_id c = elim (lookup session_id c.pending) [ some b ↦ b | none ↦ false ]

-- `tssProcesses` is not empty: `tssProcesses[0]` is `process`.
unfoldable pub execute :
    PeerLib
    → Runtime
    → TssProcess
    → List TssProcess
    → Script
    → Coordinator
    → Coordinator × Log × Outcome
unfolding first_round after_first release
execute lib rt process processes script c =
    if is_pending process.session_id c
    then (c, [], returned (some (other (codes "process already pending"))))
    else release process processes (record c { pending = insert process.session_id true c.pending })
        (after_first lib rt c.host_id process processes script
          (first_round lib rt c.host_id process processes script))

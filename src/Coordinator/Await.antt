-- ===== src/Coordinator/Await.antt =====
-- `waitForStart` and `watchExecution` of tss_util/tss/coordinator.go.
pub mod Trust
use binance_tss_demo.Prelude.{
  Bool, true, false, not, ◌&&◌, Bytes, List, [], ◌∷◌, ◌++◌, Option, none, some, Result, ok, err,
  map, ◌==◌, if◌then◌else◌, bytes_Comparable, codes,
}
use binance_tss_demo.Peers.{PeerId, PeerLib}
use binance_tss_demo.Message.{tss_initiate_msg, tss_start_msg, tss_fail_msg}
use binance_tss_demo.Process.{Error, coordinator_error, other, TssProcess, Runtime, Failure}
use binance_tss_demo.Coordinator.Effects.{
  Effect, Log, Outcome, subscribed, unsubscribed, ready_sent, runs, waiting, returned,
}

-- What the select of `waitForStart` takes.
pub data AwaitEvent : Type 0 where
  initiate_msg : PeerId → AwaitEvent
  start_msg : PeerId → Bytes → AwaitEvent
  timeout done : AwaitEvent

-- A message is ignored if a coordinator is known and the message is not from it.
unfoldable pub is_foreign : PeerId → PeerId → Bool
is_foreign coordinator from = not (coordinator == []) && not (from == coordinator)

module _ (rt : Runtime) (processes : List TssProcess) (coordinator : PeerId) where
  unfoldable pub run_all : Result Error Bytes → Log × Outcome
  run_all (err e) = ([], returned (some e))
  run_all (ok params) =
      (runs false params ∷ [], returned (rt.pool_wait (map (λ p. p.run false params) processes)))

  unfoldable pub await_loop : List AwaitEvent → Log × Outcome
  unfolding run_all is_foreign
  await_loop [] = ([], waiting)
  await_loop (initiate_msg from ∷ events) =
      let (log, out) = await_loop events in
      if is_foreign coordinator from then (log, out) else (ready_sent from ∷ log, out)
  await_loop (start_msg from payload ∷ events) =
      let next = await_loop events in
      if is_foreign coordinator from then next else run_all (rt.unmarshal_start payload)
  await_loop (timeout ∷ events) = ([], returned (some (coordinator_error coordinator)))
  await_loop (done ∷ events) = ([], returned none)

  -- The deferred calls run last in, first out, when the loop has returned.
  abbrev leaving : Log × Outcome → Log × Outcome
  leaving (log, waiting) = (log, waiting)
  leaving (log, returned f) =
      (log ++ unsubscribed tss_start_msg ∷ unsubscribed tss_initiate_msg ∷ [], returned f)

  unfoldable pub wait_for_start : List AwaitEvent → Log × Outcome
  unfolding await_loop
  wait_for_start events =
      let (log, out) = leaving (await_loop events) in
      (subscribed tss_initiate_msg ∷ subscribed tss_start_msg ∷ log, out)

-- What the select of `watchExecution` takes.
pub data WatchEvent : Type 0 where
  expired closed : WatchEvent
  fail_msg : PeerId → WatchEvent

module _ (lib : PeerLib) (coordinator : PeerId) where
  -- Fail messages that are not the coordinator's are ignored.
  unfoldable pub watch_loop : List WatchEvent → Outcome
  watch_loop [] = waiting
  watch_loop (expired ∷ events) = returned (some (other (codes "tss process timed out")))
  watch_loop (closed ∷ events) = returned none
  watch_loop (fail_msg from ∷ events) =
      let next = watch_loop events in
      if lib.pretty from == lib.pretty coordinator
      then returned (some (other (codes "tss fail message received")))
      else next

  unfoldable pub watch_execution : List WatchEvent → Log × Outcome
  unfolding watch_loop
  watch_execution events = elim (watch_loop events) [
    | waiting ↦ (subscribed tss_fail_msg ∷ [], waiting)
    | returned f ↦ (subscribed tss_fail_msg ∷ unsubscribed tss_fail_msg ∷ [], returned f)
  ]

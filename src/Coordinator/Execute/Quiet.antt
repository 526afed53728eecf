-- ===== src/Coordinator/Execute/Quiet.antt =====
-- The loops stop no process.
use binance_tss_demo.Prelude.{
  ℕ, ◌+◌, ◌≡◌, refl, Bool, true, false, Bytes, List, [], ◌∷◌, ◌++◌, Result, ok, err,
  bytes_Comparable, arith,
}
use binance_tss_demo.Peers.{PeerId}
use binance_tss_demo.Message.{tss_initiate_msg, tss_ready_msg, tss_start_msg}
use binance_tss_demo.Process.{Error, TssProcess, Runtime}
use binance_tss_demo.Coordinator.Effects.{
  Effect, Log, Outcome, unsubscribed, stopped, waiting, returned,
}
use binance_tss_demo.Coordinator.Initiate.{
  InitiateEvent, ready_msg, tick, done, add_ready, start_all, on_ready, initiate_loop, initiate,
}
use binance_tss_demo.Coordinator.Await.{
  AwaitEvent, initiate_msg, start_msg, timeout, run_all, await_loop, wait_for_start,
}
use binance_tss_demo.Coordinator.Await.{done as cancelled}

abbrev is_stop : Effect → ℕ
is_stop (stopped i) = 1
is_stop e = 0

-- The stops in a log.
abbrev pub stop_count : Log → ℕ
stop_count [] = 0
stop_count (e ∷ log) = is_stop e + stop_count log

pub stop_count-append : (xs ys : Log) → stop_count (xs ++ ys) ≡ stop_count xs + stop_count ys
stop_count-append [] ys = omega arith
stop_count-append (e ∷ xs) ys = omega (arith, stop_count-append xs ys)

-- The deferred calls add their effects when the loop has returned.
leave-none :
    (tail : Log) (r : Log × Outcome)
    → stop_count tail ≡ 0
    → stop_count r.0 ≡ 0
    → stop_count
        (elim r.1 as (λ x. Log × Outcome) [
          | waiting ↦ (r.0, waiting)
          | returned f ↦ (r.0 ++ tail, returned f)
        ]).0
      ≡ 0
leave-none tail (log, waiting) t h = h
leave-none tail (log, returned f) t h = omega (arith, stop_count-append log tail)

module _ (rt : Runtime) (process : TssProcess) (processes : List TssProcess)
    (excluded : List PeerId) where
  start_all-none :
      (peers : List PeerId) → stop_count (start_all rt process processes excluded peers).0 ≡ 0
  unfolding start_all
  start_all-none peers = ground arith

  on_ready-none :
      (peers : List PeerId) (r : Result Error Bool) (next : Log × Outcome)
      → stop_count next.0 ≡ 0
      → stop_count (on_ready rt process processes excluded peers r next).0 ≡ 0
  unfolding on_ready
  on_ready-none peers (err e) next h = refl
  on_ready-none peers (ok false) next h = h
  on_ready-none peers (ok true) next h = start_all-none peers

  initiate_loop-none :
      (peers : List PeerId) (events : List InitiateEvent)
      → stop_count (initiate_loop rt process processes excluded peers events).0 ≡ 0
  unfolding initiate_loop
  initiate_loop-none peers [] = refl
  initiate_loop-none peers (done ∷ events) = refl
  initiate_loop-none peers (tick ∷ events) = omega (arith, initiate_loop-none peers events)
  initiate_loop-none peers (ready_msg from ∷ events) =
      on_ready-none (add_ready excluded peers from) _ _
        (initiate_loop-none (add_ready excluded peers from) events)

  pub initiate-none :
      (host : PeerId) (events : List InitiateEvent)
      → stop_count (initiate rt process processes excluded host events).0 ≡ 0
  unfolding initiate
  initiate-none host events = omega (
    arith,
    leave-none (unsubscribed tss_ready_msg ∷ [])
        (initiate_loop rt process processes excluded (host ∷ []) events) refl
        (initiate_loop-none (host ∷ []) events),
  )

module _ (rt : Runtime) (processes : List TssProcess) (coordinator : PeerId) where
  run_all-none : (r : Result Error Bytes) → stop_count (run_all rt processes coordinator r).0 ≡ 0
  unfolding run_all
  run_all-none (err e) = refl
  run_all-none (ok b) = refl

  await_loop-none :
      (events : List AwaitEvent) → stop_count (await_loop rt processes coordinator events).0 ≡ 0
  unfolding await_loop
  await_loop-none [] = refl
  await_loop-none (timeout ∷ events) = refl
  await_loop-none (cancelled ∷ events) = refl
  await_loop-none (initiate_msg from ∷ events) = ground (arith, await_loop-none events)
  await_loop-none (start_msg from payload ∷ events) =
      ground (arith, await_loop-none events, run_all-none (rt.unmarshal_start payload))

  pub wait_for_start-none :
      (events : List AwaitEvent) → stop_count (wait_for_start rt processes coordinator events).0 ≡ 0
  unfolding wait_for_start
  wait_for_start-none events = omega (
    arith,
    leave-none (unsubscribed tss_start_msg ∷ unsubscribed tss_initiate_msg ∷ [])
        (await_loop rt processes coordinator events) refl (await_loop-none events),
  )

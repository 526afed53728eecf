-- ===== src/Coordinator/Start.antt =====
-- The start message carries the coordinator's parameters to the participants.
use binance_tss_demo.Prelude.{
  ◌≡◌, inl, inr, Bool, true, false, Bytes, List, [], ◌∷◌, ◌++◌, ok, err, Result, bytes_Comparable,
  arith, All, eq_refl,
}
use binance_tss_demo.Peers.{PeerId}
use binance_tss_demo.Process.{Error, TssProcess, Runtime, IsRuntime}
use binance_tss_demo.Coordinator.Effects.{Log, Outcome, IsIn, start_sent, runs}
use binance_tss_demo.Coordinator.Initiate.{
  InitiateEvent, ready_msg, tick, done, add_ready, start_all, on_ready, initiate_loop, initiate,
}
use binance_tss_demo.Coordinator.Initiate.Ready.{initiate_loop-IsIn}
use binance_tss_demo.Coordinator.Await.Trust.{await_loop-IsIn}
use binance_tss_demo.Coordinator.Await.{
  AwaitEvent, initiate_msg, start_msg, timeout, is_foreign, await_loop, wait_for_start,
}
use binance_tss_demo.Coordinator.Await.{done as cancelled}

module _ (rt : Runtime) (process : TssProcess) (processes : List TssProcess)
    (excluded : List PeerId) where
  -- What a log says of a start: the bytes sent are the text of the parameters run with.
  abbrev IsOneStart : Log → Type 0
  IsOneStart log =
      (bytes params : Bytes)
      → IsIn (start_sent bytes) log
      → IsIn (runs true params) log
      → rt.marshal_start params ≡ ok bytes

  start_all-IsOneStart :
      (peers : List PeerId) → IsOneStart (start_all rt process processes excluded peers).0
  unfolding start_all
  start_all-IsOneStart peers bytes params s r = ground arith

  on_ready-IsOneStart :
      (peers : List PeerId) (r : Result Error Bool) (next : Log × Outcome)
      → IsOneStart next.0
      → IsOneStart (on_ready rt process processes excluded peers r next).0
  unfolding on_ready
  on_ready-IsOneStart peers (err e) next h bytes params s r = absurd s
  on_ready-IsOneStart peers (ok false) next h bytes params s r = h bytes params s r
  on_ready-IsOneStart peers (ok true) next h bytes params s r =
      start_all-IsOneStart peers bytes params s r

  initiate_loop-IsOneStart :
      (peers : List PeerId) (events : List InitiateEvent)
      → IsOneStart (initiate_loop rt process processes excluded peers events).0
  unfolding initiate_loop
  initiate_loop-IsOneStart peers [] bytes params s r = absurd s
  initiate_loop-IsOneStart peers (done ∷ events) bytes params s r = absurd s
  initiate_loop-IsOneStart peers (tick ∷ events) bytes params (inl e) r = absurd (cc)
  initiate_loop-IsOneStart peers (tick ∷ events) bytes params (inr s) (inl e) = absurd (cc)
  initiate_loop-IsOneStart peers (tick ∷ events) bytes params (inr s) (inr r) =
      initiate_loop-IsOneStart peers events bytes params s r
  initiate_loop-IsOneStart peers (ready_msg from ∷ events) bytes params s r =
      on_ready-IsOneStart (add_ready excluded peers from) _ _
        (initiate_loop-IsOneStart (add_ready excluded peers from) events) bytes params s r

  initiate-IsOneStart :
      (host : PeerId) (events : List InitiateEvent)
      → IsOneStart (initiate rt process processes excluded host events).0
  initiate-IsOneStart host events bytes params s r =
      initiate_loop-IsOneStart (host ∷ []) events bytes params
        (initiate_loop-IsIn rt process processes excluded host events (start_sent bytes) (λ e. cc)
          (λ t e. cc) (λ t e. cc) s)
        (initiate_loop-IsIn rt process processes excluded host events (runs true params) (λ e. cc)
          (λ t e. cc) (λ t e. cc) r)

-- Messages that leave a waiting participant waiting: initiate messages, and start messages of
-- others than the coordinator.
abbrev pub IsHarmless : PeerId → AwaitEvent → Type 0
IsHarmless coordinator (initiate_msg from) = Unit {0}
IsHarmless coordinator (start_msg from payload) = is_foreign coordinator from ≡ true
IsHarmless coordinator timeout = ⊥
IsHarmless coordinator cancelled = ⊥

await_loop-told :
    (rt : Runtime) (processes : List TssProcess) (coordinator : PeerId) (params bytes : Bytes)
    (earlier later : List AwaitEvent)
    → All (IsHarmless coordinator) earlier
    → rt.unmarshal_start bytes ≡ ok params
    → IsIn
        (runs false params)
        (await_loop rt processes coordinator (earlier ++ start_msg coordinator bytes ∷ later)).0
unfolding await_loop
await_loop-told rt processes coordinator params bytes [] later h told =
    ground (arith, eq_refl coordinator)
await_loop-told rt processes coordinator params bytes (initiate_msg from ∷ earlier) later h told =
    ground (arith, await_loop-told rt processes coordinator params bytes earlier later h.1 told)
await_loop-told rt processes coordinator params bytes (start_msg from payload ∷ earlier) later h
      told =
    rw (h.0) (await_loop-told rt processes coordinator params bytes earlier later h.1 told)
await_loop-told rt processes coordinator params bytes (timeout ∷ earlier) later h told = absurd h.0
await_loop-told rt processes coordinator params bytes (cancelled ∷ earlier) later h told =
    absurd h.0

-- The parameters with which the coordinator runs the processes are those that a participant runs
-- its own with, once the coordinator's start message reaches it, after any initiate messages and any
-- start messages of others, when start messages are read back as they were written.
pub start-agree :
    (rt : Runtime) (good : IsRuntime rt) (process : TssProcess) (processes theirs : List TssProcess)
    (excluded : List PeerId) (host : PeerId) (events : List InitiateEvent) (params bytes : Bytes)
    (earlier later : List AwaitEvent)
    → IsIn (runs true params) (initiate rt process processes excluded host events).0
    → IsIn (start_sent bytes) (initiate rt process processes excluded host events).0
    → All (IsHarmless host) earlier
    → IsIn
        (runs false params)
        (wait_for_start rt theirs host (earlier ++ start_msg host bytes ∷ later)).0
start-agree rt good process processes theirs excluded host events params bytes earlier later r s h =
    await_loop-IsIn rt theirs host _ (runs false params) (
      await_loop-told rt theirs host params bytes earlier later h (
        good.start_round params bytes
          (initiate-IsOneStart rt process processes excluded host events bytes params s r)))

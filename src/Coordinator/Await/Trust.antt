-- ===== src/Coordinator/Await/Trust.antt =====
-- Whom a participant listens to.
use binance_tss_demo.Prelude.{
  ◌≡◌, ◌≢◌, ◌⊎◌, inl, inr, refl, Bool, true, false, Bytes, List, [], ◌∷◌, ok, err, bytes_Comparable,
  arith, ap, sym, if◌then◌else◌, ne→false, Result,
}
use binance_tss_demo.Peers.{PeerId}
use binance_tss_demo.Message.{MessageType, tss_start_msg, tss_initiate_msg}
use binance_tss_demo.Process.{Error, TssProcess, Runtime}
use binance_tss_demo.Coordinator.Effects.{
  Effect, Log, Outcome, IsIn, IsIn-append, IsIn-append_left, ready_sent, runs, waiting, returned,
  unsubscribed,
}
use binance_tss_demo.Coordinator.Await.{
  AwaitEvent, initiate_msg, start_msg, timeout, done, is_foreign, run_all, await_loop,
  wait_for_start, leaving,
}

-- The event is among those that were taken.
abbrev pub HasEvent : AwaitEvent → List AwaitEvent → Type 0
HasEvent e [] = ⊥
HasEvent e (d ∷ events) = (e ≡ d) ⊎ HasEvent e events

module _ (rt : Runtime) (processes : List TssProcess) (coordinator : PeerId) where
  is_foreign-trusted :
      (from : PeerId) → coordinator ≢ [] → is_foreign coordinator from ≡ false → from ≡ coordinator
  unfolding is_foreign
  is_foreign-trusted from n h =
      ground (arith, ne→false coordinator [] n, bytes_Comparable.equal_iff from coordinator)

  await_loop-ready_sent :
      (events : List AwaitEvent) (to : PeerId)
      → coordinator ≢ []
      → IsIn (ready_sent to) (await_loop rt processes coordinator events).0
      → to ≡ coordinator
  unfolding await_loop
  await_loop-ready_sent [] to n h = absurd h
  await_loop-ready_sent (timeout ∷ events) to n h = absurd h
  await_loop-ready_sent (done ∷ events) to n h = absurd h
  await_loop-ready_sent (initiate_msg from ∷ events) to n h =
      ground (arith, is_foreign-trusted from n, await_loop-ready_sent events to n)
  await_loop-ready_sent (start_msg from payload ∷ events) to n h =
      ground (arith, await_loop-ready_sent events to n)

  -- The parameters that a start message of the coordinator carries.
  abbrev pub IsToldBy : List AwaitEvent → Bool → Bytes → Type 0
  IsToldBy events flag params =
      (flag ≡ false)
      × (payload : Bytes) × HasEvent (start_msg coordinator payload) events
      × (rt.unmarshal_start payload ≡ ok params)

  run_all-runs :
      (r : Result Error Bytes) (flag : Bool) (params : Bytes)
      → IsIn (runs flag params) (run_all rt processes coordinator r).0
      → (flag ≡ false) × (r ≡ ok params)
  unfolding run_all
  run_all-runs (err e) flag params h = absurd h
  run_all-runs (ok p) flag params (inl e) = (cc, cc)
  run_all-runs (ok p) flag params (inr h) = absurd h

  IsToldBy-later :
      (e : AwaitEvent) (events : List AwaitEvent) (flag : Bool) (params : Bytes)
      → IsToldBy events flag params
      → IsToldBy (e ∷ events) flag params
  IsToldBy-later e events flag params (f, payload, has, told) = (f, payload, inr has, told)

  start_msg-runs :
      (b : Bool) (from : PeerId) (payload : Bytes) (events : List AwaitEvent) (flag : Bool)
      (params : Bytes)
      → (b ≡ false → from ≡ coordinator)
      → (IsIn (runs flag params) (await_loop rt processes coordinator events).0
          → IsToldBy events flag params)
      → IsIn
          (runs flag params)
          (if b
            then await_loop rt processes coordinator events
            else run_all rt processes coordinator (rt.unmarshal_start payload)).0
      → IsToldBy (start_msg from payload ∷ events) flag params
  start_msg-runs true from payload events flag params trusted more h =
      IsToldBy-later (start_msg from payload) events flag params (more h)
  start_msg-runs false from payload events flag params trusted more h =
      let (f, told) = run_all-runs (rt.unmarshal_start payload) flag params h in
      (f, payload, inl (ap (λ p. start_msg p payload) (sym (trusted refl))), told)

  await_loop-runs :
      (events : List AwaitEvent) (flag : Bool) (params : Bytes)
      → coordinator ≢ []
      → IsIn (runs flag params) (await_loop rt processes coordinator events).0
      → IsToldBy events flag params
  unfolding await_loop
  await_loop-runs [] flag params n h = absurd h
  await_loop-runs (timeout ∷ events) flag params n h = absurd h
  await_loop-runs (done ∷ events) flag params n h = absurd h
  await_loop-runs (initiate_msg from ∷ events) flag params n h =
      IsToldBy-later (initiate_msg from) events flag params
        (await_loop-runs events flag params n (ground arith))
  await_loop-runs (start_msg from payload ∷ events) flag params n h =
      start_msg-runs (is_foreign coordinator from) from payload events flag params
        (is_foreign-trusted from n) (await_loop-runs events flag params n) h

  leaving-IsIn :
      (e : Effect) (result : Log × Outcome)
      → ((t : MessageType) → e ≢ unsubscribed t)
      → IsIn e (leaving rt processes coordinator result).0
      → IsIn e result.0
  leaving-IsIn e (log, waiting) n h = h
  leaving-IsIn e (log, returned f) n h =
      elim (IsIn-append e log (unsubscribed tss_start_msg ∷ unsubscribed tss_initiate_msg ∷ []) h) [
        | inl a ↦ a
        | inr (inl p) ↦ absurd (n tss_start_msg p)
        | inr (inr (inl p)) ↦ absurd (n tss_initiate_msg p)
        | inr (inr (inr b)) ↦ absurd b
      ]

  await_loop-participant :
      (events : List AwaitEvent) (params : Bytes)
      → IsIn (runs true params) (await_loop rt processes coordinator events).0
      → ⊥
  unfolding await_loop run_all
  await_loop-participant [] params h = h
  await_loop-participant (timeout ∷ events) params h = h
  await_loop-participant (done ∷ events) params h = h
  await_loop-participant (initiate_msg from ∷ events) params h =
      ground (arith, await_loop-participant events params)
  await_loop-participant (start_msg from payload ∷ events) params h =
      ground (arith, await_loop-participant events params)

  -- A waiting node never runs the processes as the coordinator.
  pub wait_for_start-participant :
      (events : List AwaitEvent) (params : Bytes)
      → IsIn (runs true params) (wait_for_start rt processes coordinator events).0
      → ⊥
  unfolding wait_for_start
  wait_for_start-participant events params h = await_loop-participant events params (
      leaving-IsIn (runs true params) (await_loop rt processes coordinator events) (λ t e. cc)
        (ground arith))

  leaving-keeps :
      (e : Effect) (result : Log × Outcome)
      → IsIn e result.0
      → IsIn e (leaving rt processes coordinator result).0
  leaving-keeps e (log, waiting) h = h
  leaving-keeps e (log, returned f) h = IsIn-append_left e log _ h

  -- What the loop does is in the log of the whole call.
  pub await_loop-IsIn :
      (events : List AwaitEvent) (e : Effect)
      → IsIn e (await_loop rt processes coordinator events).0
      → IsIn e (wait_for_start rt processes coordinator events).0
  unfolding wait_for_start
  await_loop-IsIn events e h =
      inr (inr (leaving-keeps e (await_loop rt processes coordinator events) h))

  -- A participant that knows the coordinator runs the processes, as a participant, only with
  -- parameters that a start message of that coordinator carries, and says ready to it alone.
  pub wait_for_start-trust :
      (events : List AwaitEvent)
      → coordinator ≢ []
      → ((flag : Bool) (params : Bytes)
          → IsIn (runs flag params) (wait_for_start rt processes coordinator events).0
          → IsToldBy events flag params)
        × ((to : PeerId)
            → IsIn (ready_sent to) (wait_for_start rt processes coordinator events).0
            → to ≡ coordinator)
  unfolding wait_for_start
  wait_for_start-trust events n =
      let result = await_loop rt processes coordinator events in
      (
        λ flag params h.
            await_loop-runs events flag params n
              (leaving-IsIn (runs flag params) result (λ t e. cc) (ground arith)),
        λ to h.
            await_loop-ready_sent events to n
              (leaving-IsIn (ready_sent to) result (λ t e. cc) (ground arith)),
      )

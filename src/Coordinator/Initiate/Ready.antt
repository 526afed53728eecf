-- ===== src/Coordinator/Initiate/Ready.antt =====
-- Whom the coordinator starts a process with.
use binance_tss_demo.Prelude.{
  ◌≡◌, ◌⊎◌, ◌≢◌, inl, inr, refl, Bool, true, false, not, ◌&&◌, ◌||◌, Bytes, List, [], ◌∷◌, ok, err,
  Result, contains, contains-append, Distinct, snoc-Distinct, bytes_Comparable, arith, ◌∙◌, ◌==◌,
}
use binance_tss_demo.Peers.{PeerId}
use binance_tss_demo.Message.{MessageType, tss_ready_msg}
use binance_tss_demo.Process.{Error, TssProcess, Runtime}
use binance_tss_demo.Coordinator.Effects.{
  Effect, Log, Outcome, IsIn, IsIn-append, IsIn-append_left, subscribed, unsubscribed,
  initiate_sent, runs, waiting, returned,
}
use binance_tss_demo.Coordinator.Initiate.{
  InitiateEvent, ready_msg, tick, done, add_ready, start_all, on_ready, initiate_loop, initiate,
  leaving,
}

-- The senders of the ready messages.
abbrev pub senders : List InitiateEvent → List PeerId
senders [] = []
senders (ready_msg from ∷ events) = from ∷ senders events
senders (tick ∷ events) = senders events
senders (done ∷ events) = senders events

-- The peers that a start was decided on: those that were ready before, and peers that sent a ready
-- message and are not excluded, each once.
pub record Started (process : TssProcess) (excluded before heard : List PeerId) (params : Bytes)
    : Type 0 where
  pub peers : List PeerId
  pub distinct : Distinct peers
  pub kept : (p : PeerId) → contains before p ≡ true → contains peers p ≡ true
  pub allowed :
      (p : PeerId)
      → contains peers p ≡ true
      → (contains before p ≡ true) ⊎ ((contains excluded p ≡ false) × (contains heard p ≡ true))
  pub is_ready : process.ready peers excluded ≡ ok true
  pub started_with : params ≡ process.start_params peers

add_ready-Distinct :
    (excluded peers : List PeerId) (from : PeerId)
    → Distinct peers
    → Distinct (add_ready excluded peers from)
unfolding add_ready
add_ready-Distinct excluded peers from d = ground (arith, snoc-Distinct peers from d)

add_ready-contains :
    (excluded peers : List PeerId) (from p : PeerId)
    → contains (add_ready excluded peers from) p
      ≡ (contains peers p || (p == from && not (contains excluded from)))
unfolding add_ready
add_ready-contains excluded peers from p =
    ground (arith, contains-append peers (from ∷ []) p, bytes_Comparable.equal_iff p from)

-- A start decided on after one more ready message.
Started-add :
    (process : TssProcess) (excluded before heard : List PeerId) (from : PeerId) (params : Bytes)
    → Started process excluded (add_ready excluded before from) heard params
    → Started process excluded before (from ∷ heard) params
Started-add process excluded before heard from params s = record {
  peers = s.peers;
  distinct = s.distinct;
  kept = λ p h. s.kept p (add_ready-contains excluded before from p ∙ rw h);
  allowed = λ p h. ground (
    arith,
    s.allowed p h,
    add_ready-contains excluded before from p,
    bytes_Comparable.equal_iff p from,
  );
  is_ready = s.is_ready;
  started_with = s.started_with;
}

module _ (rt : Runtime) (process : TssProcess) (processes : List TssProcess)
    (excluded : List PeerId) where
  start_all-params :
      (peers : List PeerId) (params : Bytes)
      → IsIn (runs true params) (start_all rt process processes excluded peers).0
      → params ≡ process.start_params peers
  unfolding start_all
  start_all-params peers params h = ground arith

  start_all-Started :
      (peers heard : List PeerId) (params : Bytes)
      → Distinct peers
      → process.ready peers excluded ≡ ok true
      → IsIn (runs true params) (start_all rt process processes excluded peers).0
      → Started process excluded peers heard params
  start_all-Started peers heard params d r h = record {
    peers = peers;
    distinct = d;
    kept = λ p c. c;
    allowed = λ p c. inl c;
    is_ready = r;
    started_with = start_all-params peers params h;
  }

  on_ready-Started :
      (peers heard : List PeerId) (params : Bytes) (r : Result Error Bool) (next : Log × Outcome)
      → Distinct peers
      → process.ready peers excluded ≡ r
      → (IsIn (runs true params) next.0 → Started process excluded peers heard params)
      → IsIn (runs true params) (on_ready rt process processes excluded peers r next).0
      → Started process excluded peers heard params
  unfolding on_ready
  on_ready-Started peers heard params (err e) next d r more h = absurd h
  on_ready-Started peers heard params (ok false) next d r more h = more h
  on_ready-Started peers heard params (ok true) next d r more h =
      start_all-Started peers heard params d r h

  initiate_loop-Started :
      (before : List PeerId) (events : List InitiateEvent) (params : Bytes)
      → Distinct before
      → IsIn (runs true params) (initiate_loop rt process processes excluded before events).0
      → Started process excluded before (senders events) params
  unfolding initiate_loop
  initiate_loop-Started before [] params d h = absurd h
  initiate_loop-Started before (done ∷ events) params d h = absurd h
  initiate_loop-Started before (tick ∷ events) params d (inl e) = absurd (cc)
  initiate_loop-Started before (tick ∷ events) params d (inr h) =
      initiate_loop-Started before events params d h
  initiate_loop-Started before (ready_msg from ∷ events) params d h =
      let peers = add_ready excluded before from in
      let distinct = add_ready-Distinct excluded before from d in
      Started-add process excluded before (senders events) from params (
        on_ready-Started peers (senders events) params _ _ distinct refl
          (initiate_loop-Started peers events params distinct) h)

  leaving-IsIn :
      (d e : Effect) (result : Log × Outcome)
      → d ≢ e
      → IsIn d (leaving rt process processes excluded e result).0
      → IsIn d result.0
  leaving-IsIn d e (log, waiting) n h = h
  leaving-IsIn d e (log, returned f) n h = elim (IsIn-append d log (e ∷ []) h) [
    | inl a ↦ a
    | inr (inl p) ↦ absurd (n p)
    | inr (inr b) ↦ absurd b
  ]

  -- What is in the log is in the loop's, but for the messages and subscriptions around it.
  pub initiate_loop-IsIn :
      (host : PeerId) (events : List InitiateEvent) (d : Effect)
      → d ≢ initiate_sent
      → ((t : MessageType) → d ≢ subscribed t)
      → ((t : MessageType) → d ≢ unsubscribed t)
      → IsIn d (initiate rt process processes excluded host events).0
      → IsIn d (initiate_loop rt process processes excluded (host ∷ []) events).0
  unfolding initiate
  initiate_loop-IsIn host events d n s u (inl e) = absurd (s tss_ready_msg e)
  initiate_loop-IsIn host events d n s u (inr (inl e)) = absurd (n e)
  initiate_loop-IsIn host events d n s u (inr (inr h)) =
      leaving-IsIn d (unsubscribed tss_ready_msg)
        (initiate_loop rt process processes excluded (host ∷ []) events) (u tss_ready_msg) h

  leaving-keeps :
      (d e : Effect) (result : Log × Outcome)
      → IsIn d result.0
      → IsIn d (leaving rt process processes excluded e result).0
  leaving-keeps d e (log, waiting) h = h
  leaving-keeps d e (log, returned f) h = IsIn-append_left d log _ h

  -- What the loop does is in the log of the whole call.
  pub loop-initiate :
      (host : PeerId) (events : List InitiateEvent) (d : Effect)
      → IsIn d (initiate_loop rt process processes excluded (host ∷ []) events).0
      → IsIn d (initiate rt process processes excluded host events).0
  unfolding initiate
  loop-initiate host events d h =
      inr
        (inr (leaving-keeps d _ (initiate_loop rt process processes excluded (host ∷ []) events) h))

  -- A coordinator runs the processes only with the start parameters of peers that its process
  -- calls ready: itself, and peers that sent a ready message and are not excluded, each once.
  pub initiate-Started :
      (host : PeerId) (events : List InitiateEvent) (params : Bytes)
      → IsIn (runs true params) (initiate rt process processes excluded host events).0
      → Started process excluded (host ∷ []) (senders events) params
  initiate-Started host events params h =
      initiate_loop-Started (host ∷ []) events params (refl, tt)
        (initiate_loop-IsIn host events (runs true params) (λ e. cc) (λ t e. cc) (λ t e. cc) h)

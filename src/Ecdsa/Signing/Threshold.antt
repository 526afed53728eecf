-- ===== src/Ecdsa/Signing/Threshold.antt =====
-- A signing starts as soon as enough key holders are ready: the test for equality misses none.
use binance_tss_demo.Prelude.{
  ◌+◌, ◌≤◌, ◌<◌, ◌≡◌, inl, inr, refl, Bool, true, Bytes, List, [], ◌∷◌, ◌++◌, length, length-append,
  contains, keep, bytes_Comparable, arith, nat_eq, Bool-cases, ok,
}
use binance_tss_demo.Peers.{PeerId, PeerLib}
use binance_tss_demo.Process.{TssProcess, Runtime, Failure}
use binance_tss_demo.Coordinator.Effects.{IsIn, runs, Log, Outcome}
use binance_tss_demo.Coordinator.Initiate.{
  InitiateEvent, ready_msg, tick, done, add_ready, start_all, on_ready, initiate_loop, initiate,
}
use binance_tss_demo.Coordinator.Initiate.Ready.{loop-initiate}
use binance_tss_demo.Ecdsa.Signing.{Signing, PeersJson, ready_participants, signing_process}

-- The ready peers after some events.
abbrev pub ready_after : List PeerId → List PeerId → List InitiateEvent → List PeerId
ready_after excluded peers [] = peers
ready_after excluded peers (ready_msg from ∷ events) =
    ready_after excluded (add_ready excluded peers from) events
ready_after excluded peers (tick ∷ events) = ready_after excluded peers events
ready_after excluded peers (done ∷ events) = ready_after excluded peers events

-- The context does not end.
abbrev pub IsOpen : List InitiateEvent → Type 0
IsOpen [] = Unit {0}
IsOpen (ready_msg from ∷ events) = IsOpen events
IsOpen (tick ∷ events) = IsOpen events
IsOpen (done ∷ events) = ⊥

keep-append : (p : PeerId → Bool) (xs ys : List PeerId) → keep p (xs ++ ys) ≡ keep p xs ++ keep p ys
keep-append p [] ys = refl
keep-append p (x ∷ xs) ys = ground (arith, keep-append p xs ys)

-- One more ready message brings at most one more participant.
count-add_ready :
    (s : Signing) (excluded peers : List PeerId) (from : PeerId)
    → length (ready_participants s (add_ready excluded peers from))
      ≤ length (ready_participants s peers) + 1
unfolding ready_participants add_ready
count-add_ready s excluded peers from = ground (
  arith,
  keep-append (contains s.key_peers) peers (from ∷ []),
  length-append (keep (contains s.key_peers) peers) (keep (contains s.key_peers) (from ∷ [])),
)

count-single : (s : Signing) (p : PeerId) → length (ready_participants s (p ∷ [])) ≤ 1
unfolding ready_participants
count-single s p = ground arith

module _ (lib : PeerLib) (json : PeersJson) (rt : Runtime) (party : Signing → Failure) (s : Signing)
    (processes : List TssProcess) (excluded : List PeerId) where
  abbrev process : TssProcess
  process = signing_process lib json party s

  -- The processes run, with some parameters.
  abbrev pub HasRun : Log → Type 0
  HasRun log = (params : Bytes) × IsIn (runs true params) log

  start_all-HasRun :
      (peers : List PeerId)
      → ((params : Bytes) → (bytes : Bytes) × (rt.marshal_start params ≡ ok bytes))
      → HasRun (start_all rt process processes excluded peers).0
  unfolding start_all
  start_all-HasRun peers marshals =
      let (bytes, e) = marshals (process.start_params peers) in
      (process.start_params peers, ground arith)

  on_ready-HasRun :
      (peers : List PeerId) (next : Log × Outcome)
      → ((params : Bytes) → (bytes : Bytes) × (rt.marshal_start params ≡ ok bytes))
      → length (ready_participants s peers) ≤ s.threshold + 1
      → (length (ready_participants s peers) ≤ s.threshold → HasRun next.0)
      → HasRun (on_ready rt process processes excluded peers (process.ready peers excluded) next).0
  unfolding signing_process on_ready
  on_ready-HasRun peers next marshals most more =
      elim (Bool-cases (nat_eq (length (ready_participants s peers)) (s.threshold + 1))) [
        | inl enough ↦ rw (enough) (start_all-HasRun peers marshals)
        | inr fewer ↦ rw (fewer) (more (ground arith))
      ]

  initiate_loop-HasRun :
      (before : List PeerId) (events : List InitiateEvent)
      → ((params : Bytes) → (bytes : Bytes) × (rt.marshal_start params ≡ ok bytes))
      → IsOpen events
      → length (ready_participants s before) ≤ s.threshold
      → s.threshold < length (ready_participants s (ready_after excluded before events))
      → HasRun (initiate_loop rt process processes excluded before events).0
  unfolding initiate_loop
  initiate_loop-HasRun before [] marshals stays few many = absurd (omega arith)
  initiate_loop-HasRun before (done ∷ events) marshals stays few many = absurd stays
  initiate_loop-HasRun before (tick ∷ events) marshals stays few many =
      let (params, i) = initiate_loop-HasRun before events marshals stays few many in
      (params, inr i)
  initiate_loop-HasRun before (ready_msg from ∷ events) marshals stays few many =
      let peers = add_ready excluded before from in
      on_ready-HasRun peers (initiate_loop rt process processes excluded peers events) marshals
        (omega (arith, count-add_ready s excluded before from))
        (λ fewer. initiate_loop-HasRun peers events marshals stays fewer many)

  -- A node that signs with a threshold of at least one, and whose context does not end, runs the
  -- processes once the ready peers that hold key shares, and are not excluded, are more than the
  -- threshold. (The coordinator counts itself, if it holds one.)
  pub initiate-HasRun :
      (host : PeerId) (events : List InitiateEvent)
      → ((params : Bytes) → (bytes : Bytes) × (rt.marshal_start params ≡ ok bytes))
      → IsOpen events
      → 1 ≤ s.threshold
      → s.threshold < length (ready_participants s (ready_after excluded (host ∷ []) events))
      → HasRun (initiate rt process processes excluded host events).0
  initiate-HasRun host events marshals stays positive many =
      let few : length (ready_participants s (host ∷ [])) ≤ 1 = count-single s host in
      let (params, i) = initiate_loop-HasRun (host ∷ []) events marshals stays (omega arith) many in
      (params, loop-initiate rt process processes excluded host events (runs true params) i)

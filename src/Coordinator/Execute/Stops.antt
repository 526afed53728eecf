-- ===== src/Coordinator/Execute/Stops.antt =====
-- How often processes are stopped.
use binance_tss_demo.Prelude.{
  suc, ◌≡◌, refl, ◌∙◌, Bool, true, false, Bytes, List, [], ◌∷◌, none, some, Result, ok, err,
  bytes_Comparable, arith, if◌then◌else◌, length,
}
use binance_tss_demo.Peers.{PeerId, PeerLib, peers_from_ids}
use binance_tss_demo.Process.{
  Error, coordinator_error, communication_error, tss_error, subset_error, other, TssProcess,
  Runtime,
}
use binance_tss_demo.Coordinator.Effects.{Log, Outcome, waiting, returned}
use binance_tss_demo.Coordinator.Await.{WatchEvent, closed, watch_execution}
use binance_tss_demo.Coordinator.Execute.{
  Coordinator, Script, Round, both, start, retry, watched, retry_without, handle_error, first_round,
  after_first, stops, release, is_pending, execute,
}
use binance_tss_demo.Coordinator.Execute.Quiet.{
  stop_count, stop_count-append, initiate-none, wait_for_start-none,
}

watch_execution-none :
    (lib : PeerLib) (coordinator : PeerId) (events : List WatchEvent)
    → stop_count (watch_execution lib coordinator events).0 ≡ 0
unfolding watch_execution
watch_execution-none lib coordinator events = ground arith

both-none :
    (rt : Runtime) (a b : Log × Outcome)
    → stop_count a.0 ≡ 0
    → stop_count b.0 ≡ 0
    → stop_count (both rt a b).0 ≡ 0
unfolding both
both-none rt (l, returned f) (m, returned g) p q = omega (arith, stop_count-append l m)
both-none rt (l, waiting) (m, out) p q = omega (arith, stop_count-append l m)
both-none rt (l, returned f) (m, waiting) p q = omega (arith, stop_count-append l m)

if-none :
    (b : Bool) (x y : Log × Outcome)
    → stop_count x.0 ≡ 0
    → stop_count y.0 ≡ 0
    → stop_count (if b then x else y).0 ≡ 0
if-none true x y p q = p
if-none false x y p q = q

module _ (lib : PeerLib) (rt : Runtime) (host : PeerId) (process : TssProcess)
    (processes : List TssProcess) where
  start-none :
      (coordinator : PeerId) (excluded : List PeerId) (round : Round)
      → stop_count (start lib rt host process processes coordinator excluded round).0 ≡ 0
  unfolding start
  start-none coordinator excluded round = ground (
    arith,
    initiate-none rt process processes excluded host round.to_initiate,
    wait_for_start-none rt (process ∷ processes) coordinator round.to_await,
  )

  retry_without-none :
      (script : Script) (r : Result Bytes (List PeerId))
      → stop_count (retry_without lib rt host process processes script r).0 ≡ 0
  unfolding retry_without retry watched
  retry_without-none script (err e) = watch_execution-none lib [] (closed ∷ [])
  retry_without-none script (ok excluded) =
      both-none rt _ _ (start-none _ excluded script.again)
        (watch_execution-none lib [] script.again.to_watch)

  handle_error-none :
      (script : Script) (e : Error)
      → stop_count (handle_error lib rt host process processes script e).0 ≡ 0
  unfolding handle_error watched
  handle_error-none script (coordinator_error p) = retry_without-none script (ok (p ∷ []))
  handle_error-none script (communication_error p) = retry_without-none script (ok [])
  handle_error-none script (tss_error culprits) =
      retry_without-none script (peers_from_ids lib culprits)
  handle_error-none script (subset_error p) =
      both-none rt _ _ (wait_for_start-none rt (process ∷ processes) [] script.again.to_await)
        (watch_execution-none lib [] script.again.to_watch)
  handle_error-none script (other e) = watch_execution-none lib [] (closed ∷ [])

  first_round-none :
      (script : Script) → stop_count (first_round lib rt host process processes script).0 ≡ 0
  unfolding first_round
  first_round-none script =
      both-none rt _ _ (start-none _ [] script.first)
        (watch_execution-none lib _ script.first.to_watch)

  after_first-none :
      (script : Script) (r : Log × Outcome)
      → stop_count r.0 ≡ 0
      → stop_count (after_first lib rt host process processes script r).0 ≡ 0
  unfolding after_first
  after_first-none script (log, waiting) h = h
  after_first-none script (log, returned none) h = h
  after_first-none script (log, returned (some e)) h =
      if-none process.retryable _ (log, returned (some e))
        (stop_count-append log _ ∙ omega (arith, h, handle_error-none script e)) h

stop_count-stops : (ps : List TssProcess) → stop_count (stops ps) ≡ length ps
unfolding stops
stop_count-stops [] = refl
stop_count-stops (p ∷ ps) = omega (arith, stop_count-stops ps)

-- A call that waits has stopped no process; one that has returned has stopped one for each of its own.
abbrev pub StopsOnce : List TssProcess → Coordinator × Log × Outcome → Type 0
StopsOnce processes (c, log, waiting) = stop_count log ≡ 0
StopsOnce processes (c, log, returned f) = stop_count log ≡ suc (length processes)

release-StopsOnce :
    (process : TssProcess) (processes : List TssProcess) (c : Coordinator) (r : Log × Outcome)
    → stop_count r.0 ≡ 0
    → StopsOnce processes (release process processes c r)
unfolding release stops
release-StopsOnce process processes c (log, waiting) h = h
release-StopsOnce process processes c (log, returned f) h =
    omega (arith, stop_count-append log _, stop_count-stops processes)

pub execute-StopsOnce :
    (lib : PeerLib) (rt : Runtime) (process : TssProcess) (processes : List TssProcess)
    (script : Script) (c : Coordinator)
    → is_pending process.session_id c ≡ false
    → StopsOnce processes (execute lib rt process processes script c)
unfolding execute
execute-StopsOnce lib rt process processes script c new =
    rw (new, execute)
      (release-StopsOnce process processes _ _ (
        after_first-none lib rt c.host_id process processes script _
          (first_round-none lib rt c.host_id process processes script)))

-- ===== src/Examples/Starts.antt =====
-- Starts of a process, and calls of `Execute`.
use binance_tss_demo.Prelude.{
  ◌≡◌, ◌≢◌, ◌⊎◌, inl, inr, refl, Bool, true, false, Bytes, List, [], ◌∷◌, bytes_Comparable, arith,
  none, some, codes,
}
use binance_tss_demo.Peers.{PeerId, is_participant, exclude_peers}
use mathlib.Core.List.Perm
use binance_tss_demo.Sort.{sort}
use binance_tss_demo.Elector.Bully.{new_bully, bully_coordinator, index}
use binance_tss_demo.Session.{hash, sort_peers_for_session}
use binance_tss_demo.Elector.Static.{static_coordinator}
use binance_tss_demo.Process.{TssProcess, Failure, coordinator_error, other}
use binance_tss_demo.Coordinator.Effects.{returned, IsIn, runs, start_sent, ready_sent}
use binance_tss_demo.Coordinator.Initiate.{add_ready, ready_msg, tick, initiate, InitiateEvent}
use binance_tss_demo.Coordinator.Initiate.Ready.{Started, senders, initiate-Started}
use binance_tss_demo.Coordinator.Await.{
  AwaitEvent, closed, is_foreign, initiate_msg, start_msg, wait_for_start, watch_execution,
}
use binance_tss_demo.Coordinator.Await.Trust.{IsToldBy, wait_for_start-trust}
use binance_tss_demo.Coordinator.Start.{start-agree}
use binance_tss_demo.Coordinator.Execute.{
  start, both, Script, Round, Coordinator, is_pending, execute, handle_error, first_round,
}
use binance_tss_demo.Coordinator.Execute.Release.{IsReleased, execute-release}
use binance_tss_demo.Coordinator.Execute.Blame.{blamed, handle_error-Started}
use binance_tss_demo.Coordinator.Execute.Leader.{one_leader}
use binance_tss_demo.Ecdsa.Signing.{Signing, ready_participants, signing_process}
use binance_tss_demo.Ecdsa.Signing.Threshold.{HasRun, initiate-HasRun}
use binance_tss_demo.Examples.World.{
  p1, p2, p3, sid, lib, lib-IsPeerLib, rt, rt-IsRuntime, json, up,
}
use binance_tss_demo.Examples.Elections.{up-Apart}

abbrev signer : PeerId → Signing
signer host = record {
  host_id = host;
  session_id = sid;
  key_peers = up;
  threshold = 1;
  peers = up;
  coordinator = false;
}

abbrev party : Signing → Failure
party s = none

abbrev process : PeerId → TssProcess
process host = signing_process lib json party (signer host)

abbrev events : List InitiateEvent
events = tick ∷ ready_msg p2 ∷ ready_msg p1 ∷ []

-- Peers 3 and 2, by their hashes.
abbrev params : Bytes
params = 3 ∷ 2 ∷ []

run_test : IsIn (runs true params) (initiate rt (process p3) [] [] p3 events).0
unfolding initiate signing_process sort_peers_for_session sort hash
run_test = inr (inr (inr (inr (inl refl))))

sent_test : IsIn (start_sent params) (initiate rt (process p3) [] [] p3 events).0
unfolding initiate signing_process sort_peers_for_session sort hash
sent_test = inr (inr (inr (inl refl)))

initiate-Started_example : Started (process p3) [] (p3 ∷ []) (senders events) params
initiate-Started_example = initiate-Started rt (process p3) [] [] p3 events params run_test

initiate-HasRun_example :
    HasRun lib json rt party (signer p3) [] [] (initiate rt (process p3) [] [] p3 events).0
unfolding ready_participants add_ready
initiate-HasRun_example =
    initiate-HasRun lib json rt party (signer p3) [] [] p3 events (λ bytes. (bytes, refl)) tt
      (omega arith) (omega arith)

abbrev to_second : List AwaitEvent
to_second = initiate_msg p3 ∷ start_msg p1 (9 ∷ []) ∷ start_msg p3 params ∷ []

start-agree_example : IsIn (runs false params) (wait_for_start rt (process p2 ∷ []) p3 to_second).0
unfolding is_foreign
start-agree_example =
    start-agree rt rt-IsRuntime (process p3) [] (process p2 ∷ []) [] p3 events params params
      (initiate_msg p3 ∷ start_msg p1 (9 ∷ []) ∷ []) [] run_test sent_test (tt, (refl, tt))

wait_for_start-trust_example :
    ((flag : Bool) (bytes : Bytes)
      → IsIn (runs flag bytes) (wait_for_start rt (process p2 ∷ []) p3 to_second).0
      → IsToldBy rt (process p2 ∷ []) p3 to_second flag bytes)
    × ((to : PeerId)
        → IsIn (ready_sent to) (wait_for_start rt (process p2 ∷ []) p3 to_second).0
        → to ≡ p3)
wait_for_start-trust_example = wait_for_start-trust rt (process p2 ∷ []) p3 to_second (λ e. cc)

-- Peer 3 leads: it hears two ready peers, its watch is closed, and the run succeeds.
abbrev round : Round
round = record { to_initiate = events; to_await = []; to_watch = closed ∷ [] }

abbrev script : Script
script = record { first = round; again = round; answered = false; received = [] }

abbrev idle : Coordinator
idle = record { host_id = p3; pending = [] }

execute-release_example :
    let result = execute lib rt (process p3) [] script idle in
    (((is_pending sid idle ≡ true)
        × (result ≡ (idle, [], returned (some (other (codes "process already pending"))))))
      ⊎ ((is_pending sid idle ≡ false) × IsReleased (process p3) [] result))
    × ((j : Bytes) → (process p3).session_id ≢ j → is_pending j result.0 ≡ is_pending j idle)
unfolding signing_process
execute-release_example = execute-release lib rt (process p3) [] script idle

execute_test : (execute lib rt (process p3) [] script idle).2 ≡ returned none
unfolding execute signing_process static_coordinator sort_peers_for_session sort hash initiate
    watch_execution both is_participant
execute_test = refl

-- Peer 2 was blamed, so peers 3 and 1 sign.
abbrev retry_round : Round
retry_round = record {
  to_initiate = ready_msg p2 ∷ ready_msg p1 ∷ [];
  to_await = [];
  to_watch = [];
}

abbrev retry_script : Script
retry_script = record { first = round; again = retry_round; answered = false; received = [] }

retry_test :
    IsIn
      (runs true (3 ∷ 1 ∷ []))
      (handle_error lib rt p3 (process p3) [] retry_script (coordinator_error p2)).0
unfolding handle_error bully_coordinator new_bully exclude_peers index initiate signing_process
    sort_peers_for_session sort hash watch_execution both
retry_test = inr (inr (inr (inl refl)))

handle_error-Started_example :
    Started (process p3) (blamed lib (coordinator_error p2)) (p3 ∷ []) (p2 ∷ p1 ∷ []) (3 ∷ 1 ∷ [])
handle_error-Started_example =
    handle_error-Started lib rt p3 (process p3) [] retry_script (coordinator_error p2) (3 ∷ 1 ∷ [])
      retry_test

leads_test : IsIn (runs true params) (first_round lib rt p3 (process p3) [] script).0
unfolding first_round start static_coordinator initiate signing_process sort_peers_for_session sort
    hash watch_execution both
leads_test = inr (inr (inr (inr (inl refl))))

one_leader_example : ◌≡◌ {A = PeerId} p3 p3
unfolding signing_process
one_leader_example =
    one_leader lib lib-IsPeerLib rt p3 p3 (process p3) (process p3) [] [] script script params
      params refl up-Apart (Perm.refl up) leads_test leads_test

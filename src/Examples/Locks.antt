-- ===== src/Examples/Locks.antt =====
-- A key generation whose coordinator does not answer, and the parties of a resharing.
use binance_tss_demo.Prelude.{
  ◌≡◌, refl, Bool, false, Bytes, List, [], ◌∷◌, none, some, arith, map, length, leb, ◌-◌,
  if◌then◌else◌,
}
use binance_tss_demo.Peers.{is_participant, peers_from_ids}
use binance_tss_demo.Process.{TssProcess, coordinator_error}
use binance_tss_demo.Sort.{sort}
use binance_tss_demo.Session.{sort_peers_for_session, hash}
use binance_tss_demo.Elector.Static.{static_coordinator}
use binance_tss_demo.Message.{tss_initiate_msg, tss_start_msg, tss_fail_msg}
use binance_tss_demo.Coordinator.Effects.{
  Log, returned, IsIn, runs, subscribed, unsubscribed, session_closed, stopped,
}
use binance_tss_demo.Coordinator.Await.{timeout, closed, wait_for_start, watch_execution}
use binance_tss_demo.Coordinator.Execute.{Coordinator, Round, Script, execute, both}
use binance_tss_demo.Ecdsa.Keygen.{keygen_process}
use binance_tss_demo.Ecdsa.Parties.{PartyId}
use binance_tss_demo.Ecdsa.Resharing.Parties.{is_old, sort_parties}
use binance_tss_demo.Ecdsa.Resharing.Parties.Indexed.{with_fresh, fresh, sort_parties-indexed}
use binance_tss_demo.Keyshare.Locking.{
  Mutex, Locked, locked, ecdsa_keygen, ecdsa_resharing, frost_keygen, frost_resharing, life,
}
use binance_tss_demo.Keyshare.Locking.Lives.{IsLocked, execute-IsLocked, execute-ends}
use binance_tss_demo.Examples.World.{p1, p2, p3, sid, rt, lib, up}

abbrev process : TssProcess
process =
    keygen_process (λ coordinator params. none)
      (record { session_id = sid; peerstore = up; peers = up; threshold = 1 })

abbrev silent : Round
silent = record { to_initiate = []; to_await = timeout ∷ []; to_watch = closed ∷ [] }

abbrev script : Script
script = record { first = silent; again = silent; answered = false; received = [] }

abbrev idle : Coordinator
idle = record { host_id = p1; pending = [] }

abbrev after : Coordinator
after = record { host_id = p1; pending = (sid, false) ∷ [] }

abbrev log : Log
log =
    subscribed tss_initiate_msg
    ∷ subscribed tss_start_msg
    ∷ unsubscribed tss_start_msg
    ∷ unsubscribed tss_initiate_msg
    ∷ subscribed tss_fail_msg
    ∷ unsubscribed tss_fail_msg
    ∷ session_closed sid
    ∷ stopped sid
    ∷ []

execute_test :
    execute lib rt process [] script idle ≡ (after, log, returned (some (coordinator_error p3)))
unfolding execute keygen_process static_coordinator sort_peers_for_session sort hash wait_for_start
    watch_execution both
execute_test = refl

not_run : (b : Bool) (params : Bytes) → ¬ IsIn (runs b params) log
not_run b params h = ground arith

execute-ends_example : locked (life ecdsa_keygen log) Mutex.free ≡ Locked.ends
execute-ends_example =
    execute-ends lib rt process [] script idle after log (some (coordinator_error p3)) refl
      execute_test not_run

execute-IsLocked_example :
    let r = execute lib rt process [] script idle in
    IsLocked frost_keygen r × IsLocked frost_resharing r × IsLocked ecdsa_resharing r
execute-IsLocked_example = execute-IsLocked lib rt process script idle refl

abbrev old : List PartyId
old = record { id = p2; index = 0 } ∷ []

abbrev parties : List PartyId
parties =
    record { id = p1; index = 0 }
    ∷ record { id = p2; index = 1 }
    ∷ record { id = p3; index = 2 }
    ∷ []

sort_test :
    sort_parties lib parties old
    ≡ some (
        some (record { id = p2; index = 0 })
        ∷ some (record { id = p1; index = 1 })
        ∷ some (record { id = p3; index = 2 })
        ∷ [])
unfolding sort_parties is_participant peers_from_ids
sort_test = refl

-- An old party that is not in the peerstore.
crash_test : sort_parties lib parties (record { id = 9 ∷ []; index = 0 } ∷ []) ≡ none
unfolding sort_parties is_participant peers_from_ids
crash_test = refl

sort_parties-indexed_example :
    let room = length parties - length old in
    let others = fresh (is_old lib old) parties in
    sort_parties lib parties old ≡ (
      if leb (length others) room
      then some (with_fresh (map some old) (length old) (room - length others) others)
      else none)
sort_parties-indexed_example = sort_parties-indexed lib parties old (omega arith)

-- ===== src/Ecdsa/Monitor.antt =====
-- `monitorSigning` and `processEndMessage` of tss_util/tss/ecdsa/signing/signing.go.
pub mod Stuck
use binance_tss_demo.Prelude.{
  Bool, true, false, not, ◌&&◌, Bytes, List, [], ◌∷◌, Option, none, some, ◌==◌, if◌then◌else◌,
  bytes_Comparable,
}
use binance_tss_demo.Process.{communication_error, Failure}
use binance_tss_demo.Coordinator.Effects.{Outcome, waiting, returned}

-- `reflect.DeepEqual` on lists of parties; both are taken from the parties of one protocol, where
-- parties with one id are the same, so the ids are compared.
abbrev pub ids_equal : List Bytes → List Bytes → Bool
ids_equal [] [] = true
ids_equal [] (b ∷ ys) = false
ids_equal (a ∷ xs) [] = false
ids_equal (a ∷ xs) (b ∷ ys) = a == b && ids_equal xs ys

abbrev pub is_nil : List Bytes → Bool
is_nil [] = true
is_nil (a ∷ xs) = false

-- What the select takes: a tick, with the parties that are waited for at the comparison and after it,
-- or the end of the context.
pub data MonitorEvent : Type 0 where
  tick : List Bytes → List Bytes → MonitorEvent
  done : MonitorEvent

-- The error names no peer.
unfoldable pub monitor_loop : List Bytes → List MonitorEvent → Outcome
monitor_loop waiting_for [] = waiting
monitor_loop waiting_for (done ∷ events) = returned none
monitor_loop waiting_for (tick seen next ∷ events) =
    let rest = monitor_loop next events in
    if not (is_nil waiting_for) && ids_equal seen waiting_for
    then returned (some (communication_error []))
    else rest

unfoldable pub monitor_signing : List MonitorEvent → Outcome
unfolding monitor_loop
monitor_signing events = monitor_loop [] events

-- What the select of `processEndMessage` takes first, and what goes to the result channel.
pub data EndEvent (Signature : Type 0) : Type 0 where
  signed : Signature → EndEvent Signature
  ended : EndEvent Signature

unfoldable pub process_end_message :
    {Signature : Type 0} → Bool → EndEvent Signature → Option (Option Signature) × Failure
process_end_message coordinator (signed sig) = (some (if coordinator then some sig else none), none)
process_end_message coordinator ended = (none, none)

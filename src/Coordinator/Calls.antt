-- ===== src/Coordinator/Calls.antt =====
-- Two calls of `Execute` of tss_util/tss/coordinator.go at once. The test of pendingProcesses stands
-- before the lock, so that the other call may act between the test and the mark.
pub mod Marks
use binance_tss_demo.Prelude.{Bool, true, false, Bytes, List, ◌≡◌, if◌then◌else◌, bytes_Comparable}
use binance_tss_demo.Prelude.Maps.{insert}
use binance_tss_demo.Coordinator.Execute.{Coordinator, is_pending}

-- Where a call is: before the test, after it, past the mark, or at its end.
pub data Phase : Type 0 where
  idle free running refused finished : Phase

pub record Calls : Type 0 where
  pub coordinator : Coordinator
  pub one : Phase
  pub two : Phase

abbrev pub marked : Bytes → Bool → Coordinator → Coordinator
marked session_id b c = record c { pending = insert session_id b c.pending }

abbrev pub tested : Bytes → Coordinator → Phase
tested session_id c = if is_pending session_id c then refused else free

-- A step of either call: the test, the mark under the lock, and the deferred release.
pub data Step (s1 s2 : Bytes) : Calls → Calls → Type 0 where
  test_one : (k : Calls) → k.one ≡ idle → Step s1 s2 k (record k { one = tested s1 k.coordinator })
  mark_one :
      (k : Calls)
      → k.one ≡ free
      → Step s1 s2 k (record k { one = running; coordinator = marked s1 true k.coordinator })
  release_one :
      (k : Calls)
      → k.one ≡ running
      → Step s1 s2 k (record k { one = finished; coordinator = marked s1 false k.coordinator })
  test_two : (k : Calls) → k.two ≡ idle → Step s1 s2 k (record k { two = tested s2 k.coordinator })
  mark_two :
      (k : Calls)
      → k.two ≡ free
      → Step s1 s2 k (record k { two = running; coordinator = marked s2 true k.coordinator })
  release_two :
      (k : Calls)
      → k.two ≡ running
      → Step s1 s2 k (record k { two = finished; coordinator = marked s2 false k.coordinator })

pub data Steps (s1 s2 : Bytes) : Calls → Calls → Type 0 where
  stay : (k : Calls) → Steps s1 s2 k k
  then_step : {a b c : Calls} → Steps s1 s2 a b → Step s1 s2 b c → Steps s1 s2 a c

abbrev pub both_idle : Coordinator → Calls
both_idle c = record { coordinator = c; one = idle; two = idle }

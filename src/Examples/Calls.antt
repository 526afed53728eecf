-- ===== src/Examples/Calls.antt =====
-- Two calls of Execute at once.
use binance_tss_demo.Prelude.{
  ◌≡◌, ◌≢◌, ◌↔◌, refl, true, false, Bytes, [], codes, false→ne, bytes_Comparable,
}
use binance_tss_demo.Coordinator.Execute.{Coordinator, is_pending}
use binance_tss_demo.Coordinator.Calls.{
  Calls, Steps, running, both_idle, stay, then_step, test_one, mark_one, tested, marked,
}
use binance_tss_demo.Coordinator.Calls.Marks.{marks-running, calls-race}
use binance_tss_demo.Examples.World.{p1}

abbrev fresh : Coordinator
fresh = record { host_id = p1; pending = [] }

abbrev first_session : Bytes
first_session = codes "a"

abbrev second_session : Bytes
second_session = codes "b"

apart : first_session ≢ second_session
apart = false→ne first_session second_session refl

abbrev after_test : Calls
after_test = record (both_idle fresh) { one = tested first_session fresh }

abbrev after_mark : Calls
after_mark = record after_test { one = running; coordinator = marked first_session true fresh }

some-Steps : Steps first_session second_session (both_idle fresh) after_mark
some-Steps =
    then_step (then_step (stay (both_idle fresh)) (test_one (both_idle fresh) refl))
      (mark_one after_test refl)

marks-running_example :
    (is_pending first_session after_mark.coordinator ≡ true) ↔ (after_mark.one ≡ running)
marks-running_example =
    marks-running first_session second_session fresh after_mark apart refl some-Steps

calls-race_example :
    ((k : Calls) × Steps first_session first_session (both_idle fresh) k
      × (k.one ≡ running)
      × (k.two ≡ running))
    × ((k : Calls) × Steps first_session first_session (both_idle fresh) k
        × (k.one ≡ running)
        × (is_pending first_session k.coordinator ≡ false))
calls-race_example = calls-race first_session fresh refl

-- ===== src/Coordinator/Calls/Marks.antt =====
-- When the mark of a session can be trusted.
use binance_tss_demo.Prelude.{
  Bool, true, false, Bytes, ◌≡◌, ◌≢◌, ◌↔◌, refl, ap, if◌then◌else◌, bytes_Comparable, ◌==◌, arith,
  eq_refl, ne→false,
}
use binance_tss_demo.Prelude.Maps.{lookup-insert}
use binance_tss_demo.Coordinator.Execute.{Coordinator, is_pending}
use binance_tss_demo.Coordinator.Calls.{
  idle, free, running, refused, finished, Calls, marked, tested, Step, test_one, mark_one,
  release_one, test_two, mark_two, release_two, Steps, stay, then_step, both_idle,
}

is_pending-marked :
    (session_id sid : Bytes) (b : Bool) (c : Coordinator)
    → is_pending sid (marked session_id b c) ≡ (if sid == session_id then b else is_pending sid c)
is_pending-marked session_id sid b c = ground (arith, lookup-insert session_id sid b c.pending)

own_mark :
    (session_id : Bytes) (b : Bool) (c : Coordinator)
    → is_pending session_id (marked session_id b c) ≡ b
own_mark session_id b c =
    ground (arith, is_pending-marked session_id session_id b c, eq_refl session_id)

other_mark :
    (session_id sid : Bytes) (b : Bool) (c : Coordinator)
    → sid ≢ session_id
    → is_pending sid (marked session_id b c) ≡ is_pending sid c
other_mark session_id sid b c n =
    ground (arith, is_pending-marked session_id sid b c, ne→false sid session_id n)

abbrev Marks : Bytes → Calls → Type 0
Marks s k = (is_pending s k.coordinator ≡ true) ↔ (k.one ≡ running)

tested-running : (b : Bool) → (if b then refused else free) ≡ running → ⊥
tested-running true e = cc
tested-running false e = cc

Step-Marks : (s1 s2 : Bytes) {a b : Calls} → s1 ≢ s2 → Step s1 s2 a b → Marks s1 a → Marks s1 b
Step-Marks s1 s2 n (test_one k e) m = (
  (λ h. let r = m.0 h in absurd (cc)),
  (λ h. absurd (tested-running (is_pending s1 k.coordinator) h)),
)
Step-Marks s1 s2 n (mark_one k e) m = ((λ h. refl), (λ h. own_mark s1 true k.coordinator))
Step-Marks s1 s2 n (release_one k e) m = ground (arith, own_mark s1 false k.coordinator)
Step-Marks s1 s2 n (test_two k e) m = m
Step-Marks s1 s2 n (mark_two k e) m = rw (other_mark s2 s1 true k.coordinator n) m
Step-Marks s1 s2 n (release_two k e) m = rw (other_mark s2 s1 false k.coordinator n) m

Steps-Marks : (s1 s2 : Bytes) {a b : Calls} → s1 ≢ s2 → Steps s1 s2 a b → Marks s1 a → Marks s1 b
Steps-Marks s1 s2 n (stay k) m = m
Steps-Marks s1 s2 n (then_step steps step) m = Step-Marks s1 s2 n step (Steps-Marks s1 s2 n steps m)

-- Whatever a call for another session does, in whatever order, a session that was not pending is
-- marked exactly while its own call runs.
pub marks-running :
    (s1 s2 : Bytes) (c : Coordinator) (k : Calls)
    → s1 ≢ s2
    → is_pending s1 c ≡ false
    → Steps s1 s2 (both_idle c) k
    → (is_pending s1 k.coordinator ≡ true) ↔ (k.one ≡ running)
marks-running s1 s2 c k n free_before steps =
    Steps-Marks s1 s2 n steps ((λ h. absurd (cc)), (λ h. absurd (cc)))

tested_free : (s : Bytes) (c : Coordinator) → is_pending s c ≡ false → tested s c ≡ free
tested_free s c h = ap (λ b. if b then refused else free) h

abbrev tested_both : Bytes → Coordinator → Calls
tested_both s c = record { coordinator = c; one = tested s c; two = tested s c }

-- Both calls make the test before either of them marks the session.
to_tested : (s : Bytes) (c : Coordinator) → Steps s s (both_idle c) (tested_both s c)
to_tested s c =
    then_step (then_step (stay (both_idle c)) (test_one (both_idle c) refl))
      (test_two (record { coordinator = c; one = tested s c; two = idle }) refl)

abbrev twice_marked : Bytes → Coordinator → Coordinator
twice_marked s c = marked s true (marked s true c)

to_running :
    (s : Bytes) (c : Coordinator)
    → is_pending s c ≡ false
    → Steps s s
        (both_idle c)
        (record { coordinator = twice_marked s c; one = running; two = running })
to_running s c h =
    let may = tested_free s c h in
    then_step (then_step (to_tested s c) (mark_one (tested_both s c) may))
      (mark_two (record { coordinator = marked s true c; one = running; two = tested s c }) may)

-- Two calls for one session that is not pending can both come to run, and while one of them still
-- runs, the other can have taken its mark away.
pub calls-race :
    (s : Bytes) (c : Coordinator)
    → is_pending s c ≡ false
    → ((k : Calls) × Steps s s (both_idle c) k × (k.one ≡ running) × (k.two ≡ running))
      × ((k : Calls) × Steps s s (both_idle c) k
          × (k.one ≡ running)
          × (is_pending s k.coordinator ≡ false))
calls-race s c h =
    let k : Calls = record { coordinator = twice_marked s c; one = running; two = running } in
    let steps = to_running s c h in
    (
      (k, steps, refl, refl),
      (
        record k { two = finished; coordinator = marked s false (twice_marked s c) },
        then_step steps (release_two k refl),
        refl,
        own_mark s false (twice_marked s c),
      ),
    )

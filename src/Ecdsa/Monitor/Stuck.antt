-- ===== src/Ecdsa/Monitor/Stuck.antt =====
-- When a signing counts as stuck.
use binance_tss_demo.Prelude.{
  ◌≡◌, ◌≢◌, inl, inr, refl, ap, Bool, true, false, not, ◌&&◌, Bytes, List, [], ◌∷◌, ◌++◌, some,
  bytes_Comparable, arith, Bool-cases,
}
use binance_tss_demo.Process.{Error}
use binance_tss_demo.Coordinator.Effects.{returned}
use binance_tss_demo.Ecdsa.Monitor.{
  ids_equal, is_nil, MonitorEvent, tick, done, monitor_loop, monitor_signing,
}

ids_equal→≡ : (xs ys : List Bytes) → ids_equal xs ys ≡ true → xs ≡ ys
ids_equal→≡ [] [] h = refl
ids_equal→≡ [] (b ∷ ys) h = absurd (cc)
ids_equal→≡ (a ∷ xs) [] h = absurd (cc)
ids_equal→≡ (a ∷ xs) (b ∷ ys) h = ground (arith, ids_equal→≡ xs ys, bytes_Comparable.equal_iff a b)

-- Two ticks in a row see the same parties missing.
abbrev pub IsStuck : List MonitorEvent → Type 0
IsStuck events =
    (before : List MonitorEvent) × (seen : List Bytes) × (missing : List Bytes) × (next : List
      Bytes)
    × (after : List MonitorEvent) × (missing ≢ [])
    × (events ≡ before ++ tick seen missing ∷ tick missing next ∷ after)

not_nil : (xs : List Bytes) → is_nil xs ≡ false → xs ≢ []
not_nil [] h e = cc
not_nil (a ∷ xs) h e = cc

both_hold : (b c : Bool) → (b && c) ≡ true → (b ≡ true) × (c ≡ true)
both_hold true c h = (refl, h)
both_hold false c h = absurd (cc)

loop-IsStuck :
    (seen waiting_for : List Bytes) (events : List MonitorEvent) (e : Error)
    → monitor_loop waiting_for events ≡ returned (some e)
    → IsStuck (tick seen waiting_for ∷ events)
unfolding monitor_loop
loop-IsStuck seen waiting_for [] e h = absurd (cc)
loop-IsStuck seen waiting_for (done ∷ events) e h = absurd (cc)
loop-IsStuck seen waiting_for (tick now next ∷ events) e h =
    elim (Bool-cases (not (is_nil waiting_for) && ids_equal now waiting_for)) [
      | inl t ↦
          let (n, same) = both_hold (not (is_nil waiting_for)) (ids_equal now waiting_for) t in
          (
            [],
            seen,
            waiting_for,
            next,
            events,
            not_nil waiting_for (ground arith),
            ap (λ w. tick seen waiting_for ∷ tick w next ∷ events)
                (ids_equal→≡ now waiting_for same),
          )
      | inr f ↦
          let (before, s, m, k, after, n, p) = loop-IsStuck now next events e (ground arith) in
          (tick seen waiting_for ∷ before, s, m, k, after, n, ap (◌∷◌ (tick seen waiting_for)) p)
    ]

-- The monitor returns an error only if two ticks in a row see the same parties missing, and at least
-- one of them.
pub monitor_signing-IsStuck :
    (events : List MonitorEvent) (e : Error)
    → monitor_signing events ≡ returned (some e)
    → IsStuck events
unfolding monitor_signing monitor_loop
monitor_signing-IsStuck [] e h = absurd (cc)
monitor_signing-IsStuck (done ∷ events) e h = absurd (cc)
monitor_signing-IsStuck (tick seen next ∷ events) e h =
    loop-IsStuck seen next events e (ground arith)

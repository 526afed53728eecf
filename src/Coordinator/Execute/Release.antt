-- ===== src/Coordinator/Execute/Release.antt =====
-- What `Execute` leaves behind.
use binance_tss_demo.Prelude.{
  sym, ◌≡◌, ◌≢◌, ◌⊎◌, inl, inr, refl, Bool, true, false, Bytes, List, [], ◌∷◌, ◌++◌, some,
  bytes_Comparable, arith, Bool-cases, if◌then◌else◌, ◌==◌, All, eq_refl, ne→false, codes, ap, ◌∙◌,
}
use binance_tss_demo.Prelude.Maps.{insert, lookup-insert}
use binance_tss_demo.Peers.{PeerLib}
use binance_tss_demo.Process.{TssProcess, Runtime, other}
use binance_tss_demo.Coordinator.Effects.{
  Log, Outcome, IsIn, IsIn-append_right, session_closed, stopped, waiting, returned,
}
use binance_tss_demo.Coordinator.Execute.{
  Coordinator, Script, stops, release, is_pending, execute, first_round, after_first,
}

-- A call that has returned has closed its session, stopped its processes and is no longer pending.
abbrev pub IsReleased : TssProcess → List TssProcess → Coordinator × Log × Outcome → Type 0
IsReleased process processes (c, log, waiting) = is_pending process.session_id c ≡ true
IsReleased process processes (c, log, returned f) =
    (is_pending process.session_id c ≡ false)
    × IsIn (session_closed process.session_id) log
    × All (λ p. IsIn (stopped p.session_id) log) (process ∷ processes)

is_pending-insert :
    (c : Coordinator) (session_id j : Bytes) (b : Bool)
    → is_pending j (record c { pending = insert session_id b c.pending })
      ≡ (if j == session_id then b else is_pending j c)
is_pending-insert c session_id j b = ground (arith, lookup-insert session_id j b c.pending)

stops-IsIn :
    (ps : List TssProcess) (log : Log)
    → ((p : TssProcess) → IsIn (stopped p.session_id) (stops ps) → IsIn (stopped p.session_id) log)
    → All (λ p. IsIn (stopped p.session_id) log) ps
unfolding stops
stops-IsIn [] log h = tt
stops-IsIn (p ∷ ps) log h = (h p (inl refl), stops-IsIn ps log (λ q i. h q (inr i)))

release-IsReleased :
    (process : TssProcess) (processes : List TssProcess) (c : Coordinator) (result : Log × Outcome)
    → is_pending process.session_id c ≡ true
    → IsReleased process processes (release process processes c result)
unfolding release
release-IsReleased process processes c (log, waiting) h = h
release-IsReleased process processes c (log, returned f) h =
    let end = session_closed process.session_id ∷ stops (process ∷ processes) in
    (
      is_pending-insert c process.session_id process.session_id false
          ∙ ap (λ b. if b then false else is_pending process.session_id c)
              (eq_refl process.session_id),
      IsIn-append_right _ log end (inl refl),
      stops-IsIn (process ∷ processes) (log ++ end) (λ p i. IsIn-append_right _ log end (inr i)),
    )

release-others :
    (process : TssProcess) (processes : List TssProcess) (c : Coordinator) (result : Log × Outcome)
    (j : Bytes)
    → process.session_id ≢ j
    → is_pending j (release process processes c result).0 ≡ is_pending j c
unfolding release
release-others process processes c (log, waiting) j n = refl
release-others process processes c (log, returned f) j n =
    is_pending-insert c process.session_id j false
    ∙ ap (λ b. if b then false else is_pending j c) (ne→false j process.session_id (λ e. n (sym e)))

-- A call for a session that is pending changes nothing, does nothing and returns an error. Any other
-- call marks the session as pending while it waits; once it has returned the session is no longer
-- pending, its streams are closed and each of its processes is stopped, whatever the outcome. No
-- call changes the mark of another session.
pub execute-release :
    (lib : PeerLib) (rt : Runtime) (process : TssProcess) (processes : List TssProcess)
    (script : Script) (c : Coordinator)
    → let result = execute lib rt process processes script c in
      (((is_pending process.session_id c ≡ true)
          × (result ≡ (c, [], returned (some (other (codes "process already pending"))))))
        ⊎ ((is_pending process.session_id c ≡ false) × IsReleased process processes result))
      × ((j : Bytes) → process.session_id ≢ j → is_pending j result.0 ≡ is_pending j c)
unfolding execute
execute-release lib rt process processes script c =
    elim (Bool-cases (is_pending process.session_id c)) [
      | inl old ↦ rw old (inl (refl, refl), λ j n. refl)
      | inr new ↦ rw new (
        inr (
          refl,
          release-IsReleased process processes marked ran (
              mark process.session_id
              ∙ ap (λ b. if b then true else is_pending process.session_id c)
                  (eq_refl process.session_id)),
        ),
        λ j n.
            release-others process processes marked ran j n
            ∙ mark j
            ∙ ap (λ b. if b then true else is_pending j c)
                (ne→false j process.session_id (λ e. n (sym e))),
      )
    ]
  where
    marked : Coordinator
    marked = record c { pending = insert process.session_id true c.pending }

    ran : Log × Outcome
    ran =
        after_first lib rt c.host_id process processes script
          (first_round lib rt c.host_id process processes script)

    mark :
        (j : Bytes)
        → is_pending j marked ≡ (if j == process.session_id then true else is_pending j c)
    mark j = is_pending-insert c process.session_id j true

-- ===== src/Comm/Health/Reachable.antt =====
-- What the health check tells of the peers.
use binance_tss_demo.Prelude.{
  ℕ, ◌≡◌, ◌≢◌, inl, inr, refl, ap, ◌∙◌, true, false, Bytes, List, [], ◌∷◌, none, some, ok, contains,
  bytes_Comparable, ◌==◌, if◌then◌else◌, arith, ne→false, eq_refl, Bool-cases,
}
use binance_tss_demo.Peers.{PeerId}
use binance_tss_demo.Message.{unknown}
use binance_tss_demo.Process.{Error, Failure, Runtime, IsPool}
use binance_tss_demo.Comm.Framing.{write_stream}
use binance_tss_demo.Comm.Streams.{StreamManager, stream}
use binance_tss_demo.Comm.Streams.Laws.{stream-release_streams}
use binance_tss_demo.Comm.Libp2p.{Network, MessageJson, Written, tasks_for, broadcast}
use binance_tss_demo.Comm.Libp2p.Finishing.{alone-returns}
use binance_tss_demo.Coordinator.Effects.{Outcome, waiting, returned}
use binance_tss_demo.Comm.Libp2p.Lines.{Kept, IsWritten, written_left, written_right}
use binance_tss_demo.Comm.Libp2p.Broadcast.{broadcast-Reached}
use binance_tss_demo.Comm.Libp2p.Receivers.{in_tail}
use binance_tss_demo.Comm.Health.{
  health_session, one_task, add_error, check_peers, execute_comm_health_check,
}

-- The health check's message was written for each other peer.
abbrev pub AllWritten : PeerId → List PeerId → Bytes → Written → Type 0
AllWritten host peers bytes out =
    (p : PeerId)
    → contains peers p ≡ true
    → (host == p) ≡ false
    → (s : ℕ) × IsWritten s (write_stream bytes) out

no_error :
    (outcome : Outcome) (errors : List Error)
    → (f : Failure) × (outcome ≡ returned f)
    → add_error outcome errors ≡ []
    → (outcome ≡ returned none) × (errors ≡ [])
no_error waiting errors (f, r) e = absurd (cc)
no_error (returned none) errors r e = (refl, e)
no_error (returned (some x)) errors r e = absurd (cc)

module _ (net : Network) (json : MessageJson) (rt : Runtime) (host : PeerId) (pool : IsPool rt)
    (bytes : Bytes)
    (encodes : json.marshal
        (record { message_type = unknown; session_id = health_session; payload = []; from = host })
      ≡ ok bytes) where
  first_returns :
      (sm : StreamManager) (p : PeerId)
      → (f : Failure) × ((broadcast net json rt one_task host sm
            (p ∷ [])
            []
            unknown
            health_session).2
          ≡ returned f)
  unfolding broadcast tasks_for
  first_returns sm p = elim (Bool-cases (host == p)) [
    | inl e ↦ rw (encodes, e, broadcast, tasks_for) (_, refl)
    | inr e ↦ rw (encodes, e, broadcast, tasks_for) (alone-returns net health_session bytes rt sm p)
  ]

  check_peers-Kept :
      (peers : List PeerId) (sm : StreamManager)
      → Kept sm (check_peers net json rt host sm peers).0
        × ((check_peers net json rt host sm peers).2 ≡ []
            → AllWritten host peers bytes (check_peers net json rt host sm peers).1)
  unfolding check_peers
  check_peers-Kept [] sm = ((λ i q s h. h), (λ e p h n. absurd (cc)))
  check_peers-Kept (p ∷ ps) sm =
      let first = broadcast net json rt one_task host sm (p ∷ []) [] unknown health_session in
      let reached =
        broadcast-Reached net json rt one_task host sm (p ∷ []) [] unknown health_session bytes pool
          encodes in
      let (kept', written) = check_peers-Kept ps first.0 in
      (
        (λ i q s h. kept' i q s (reached.kept i q s h)),
        (λ e q h n.
            let (fine, none_left) =
              no_error first.2 (check_peers net json rt host first.0 ps).2 (first_returns sm p) e in
            elim (in_tail q p ps h) [
              | inl same ↦
                  let (s, at, w) =
                    reached.all fine q (ground (arith, eq_refl p, ap (λ x. x == p) same), n) in
                  (
                    s,
                    written_left s (write_stream bytes) first.1
                        (check_peers net json rt host first.0 ps).1 w,
                  )
              | inr there ↦
                  let (s, w) = written none_left q there n in
                  (
                    s,
                    written_right s (write_stream bytes) first.1
                        (check_peers net json rt host first.0 ps).1 w,
                  )
            ]),
      )

  -- A health check that reports no error has written its message for each other peer; whatever it
  -- reports, it leaves no stream of its session, and the streams of the other sessions as they were.
  pub health_check-written :
      (sm : StreamManager) (peers : List PeerId)
      → let (sm', out, errors) = execute_comm_health_check net json rt host sm peers in
        (errors ≡ [] → AllWritten host peers bytes out)
        × ((p : PeerId) → stream sm' health_session p ≡ none)
        × ((session_id : Bytes) (p : PeerId) (s : ℕ)
            → session_id ≢ health_session
            → stream sm session_id p ≡ some s
            → stream sm' session_id p ≡ some s)
  unfolding execute_comm_health_check
  health_check-written sm peers =
      let (kept, written) = check_peers-Kept peers sm in
      let after = (check_peers net json rt host sm peers).0 in
      let released =
        λ (i : Bytes) (p : PeerId). (stream-release_streams after health_session i p).0 in
      (
        written,
        (λ p.
            released health_session p
            ∙ ap (λ b. if b then none else stream after health_session p) (eq_refl health_session)),
        (λ i p s n h.
            released i p
            ∙ ap (λ b. if b then none else stream after i p) (ne→false i health_session n)
            ∙ kept i p s h),
      )

-- ===== src/Comm/Streams/Laws.antt =====
-- The streams as a function from session and peer.
use binance_tss_demo.Prelude.{
  ℕ, ◌≡◌, refl, ap, ◌∙◌, sym, Bool, true, false, ◌&&◌, Bytes, List, [], ◌∷◌, ◌++◌, Option, none,
  some, map, bytes_Comparable, ◌==◌, if◌then◌else◌, arith, Option-cases, inl, inr,
}
use binance_tss_demo.Prelude.Maps.{lookup, insert, lookup-insert, lookup-delete}
use binance_tss_demo.Peers.{PeerId}
use binance_tss_demo.Comm.Streams.{
  StreamManager, Streams, streams_of, release_streams, add_stream, stream,
}

-- What adding does to the streams of one session.
added :
    (streams : Streams) (peer_id p : PeerId) (new : ℕ)
    → lookup p
        (elim (lookup peer_id streams) [ some s ↦ streams | none ↦ insert peer_id new streams ])
      ≡ (if p == peer_id
          then (elim (lookup peer_id streams) [ some s ↦ some s | none ↦ some new ])
          else lookup p streams)
added streams peer_id p new = elim (Option-cases (lookup peer_id streams)) [
  | inl e ↦ rw (e) (lookup-insert peer_id p new streams)
  | inr (s, e) ↦ rw (e) (found s e (p == peer_id) (bytes_Comparable.equal_iff p peer_id).0)
]
  where
    found :
        (s : ℕ)
        → lookup peer_id streams ≡ some s
        → (b : Bool) → (b ≡ true → p ≡ peer_id)
        → lookup p streams ≡ (if b then some s else lookup p streams)
    found s e false q = refl
    found s e true q = ap (λ x. lookup x streams) (q refl) ∙ e

streams_of-add :
    (sm : StreamManager) (session_id sid : Bytes) (peer_id : PeerId) (new : ℕ)
    → streams_of (add_stream sm session_id peer_id new) sid ≡ (
        if sid == session_id
        then (elim (lookup peer_id (streams_of sm session_id)) [
          | some s ↦ streams_of sm session_id
          | none ↦ insert peer_id new (streams_of sm session_id)
        ])
        else streams_of sm sid)
unfolding add_stream
streams_of-add sm session_id sid peer_id new = ground (
  arith,
  lookup-insert session_id sid
      (elim (lookup peer_id (streams_of sm session_id)) [
        | some s ↦ streams_of sm session_id
        | none ↦ insert peer_id new (streams_of sm session_id)
      ])
      sm.streams_by_session_id,
)

-- A stream is added where there is none, and stays where there is one; no other changes.
pub stream-add_stream :
    (sm : StreamManager) (session_id sid : Bytes) (peer_id p : PeerId) (new : ℕ)
    → stream (add_stream sm session_id peer_id new) sid p ≡ (
        if sid == session_id && p == peer_id
        then (elim (stream sm session_id peer_id) [ some s ↦ some s | none ↦ some new ])
        else stream sm sid p)
unfolding stream
stream-add_stream sm session_id sid peer_id p new =
    ap (lookup p) (streams_of-add sm session_id sid peer_id new)
    ∙ chosen (sid == session_id) (bytes_Comparable.equal_iff sid session_id).0
  where
    chosen :
        (b : Bool)
        → (b ≡ true → sid ≡ session_id)
        → lookup p (
            if b
            then (elim (lookup peer_id (streams_of sm session_id)) [
              | some s ↦ streams_of sm session_id
              | none ↦ insert peer_id new (streams_of sm session_id)
            ])
            else streams_of sm sid)
          ≡ (if b && p == peer_id
              then (elim (lookup peer_id (streams_of sm session_id)) [
                | some s ↦ some s
                | none ↦ some new
              ])
              else lookup p (streams_of sm sid))
    chosen false e = refl
    chosen true e =
        added (streams_of sm session_id) peer_id p new
        ∙ ap
            (λ x.
              if p == peer_id
              then (elim (lookup peer_id (streams_of sm session_id)) [
                | some s ↦ some s
                | none ↦ some new
              ])
              else lookup p (streams_of sm x))
            (sym (e refl))

append_nil : (xs : List ℕ) → xs ++ [] ≡ xs
append_nil [] = refl
append_nil (x ∷ xs) = ap (◌∷◌ x) (append_nil xs)

abbrev or_no_streams : Option Streams → Streams
or_no_streams (some streams) = streams
or_no_streams none = []

-- Looking up after the streams of a session are taken out.
taken_out :
    (b : Bool) (p : PeerId) (o : Option Streams)
    → lookup p (or_no_streams (if b then none else o))
      ≡ (if b then none else lookup p (or_no_streams o))
taken_out true p o = refl
taken_out false p o = refl

-- Nothing is there of a session that has no streams.
absent :
    (sm : StreamManager) (session_id sid : Bytes) (p : PeerId)
    → lookup session_id sm.streams_by_session_id ≡ none
    → (b : Bool) → (b ≡ true → sid ≡ session_id)
    → lookup p (or_no_streams (lookup sid sm.streams_by_session_id))
      ≡ (if b then none else lookup p (or_no_streams (lookup sid sm.streams_by_session_id)))
absent sm session_id sid p e false q = refl
absent sm session_id sid p e true q =
    ap (λ s. lookup p (or_no_streams (lookup s sm.streams_by_session_id))) (q refl)
    ∙ ap (λ o. lookup p (or_no_streams o)) e

-- No stream of a session that is released is left, each is closed, and no other session changes.
pub stream-release_streams :
    (sm : StreamManager) (session_id sid : Bytes) (p : PeerId)
    → (stream (release_streams sm session_id) sid p
        ≡ (if sid == session_id then none else stream sm sid p))
      × ((release_streams sm session_id).closed
          ≡ sm.closed ++ map (λ entry. entry.1) (streams_of sm session_id))
unfolding stream release_streams
stream-release_streams sm session_id sid p =
    elim (Option-cases (lookup session_id sm.streams_by_session_id)) [
      | inl e ↦
          rw (e, streams_of, stream, release_streams)
            (
              absent sm session_id sid p e (sid == session_id)
                  (bytes_Comparable.equal_iff sid session_id).0,
              sym (append_nil sm.closed),
            )
      | inr (streams, e) ↦
          rw (e, streams_of, stream, release_streams)
            (
              ap (λ o. lookup p (or_no_streams o))
                    (lookup-delete session_id sid sm.streams_by_session_id)
                  ∙ taken_out (sid == session_id) p (lookup sid sm.streams_by_session_id),
              refl,
            )
    ]

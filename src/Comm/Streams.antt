-- ===== src/Comm/Streams.antt =====
-- tss_util/comm/p2p/manager.go. A stream is a number.
pub mod Laws
use binance_tss_demo.Prelude.{
  ℕ, Bytes, List, [], ◌∷◌, ◌++◌, Option, none, some, Result, ok, err, map, codes, bytes_Comparable,
}
use binance_tss_demo.Prelude.Maps.{lookup, insert, delete}
use binance_tss_demo.Peers.{PeerId}

abbrev pub Streams : Type 0
Streams = List (PeerId × ℕ)

-- `streamsBySessionID`, and the streams that were closed, in order.
pub record StreamManager : Type 0 where
  pub streams_by_session_id : List (Bytes × Streams)
  pub closed : List ℕ

-- What is missing reads empty.
abbrev pub streams_of : StreamManager → Bytes → Streams
streams_of sm session_id = elim (lookup session_id sm.streams_by_session_id) [
  | some streams ↦ streams
  | none ↦ []
]

-- `ReleaseStreams`; Go closes the streams in no certain order, and only logs an error of Close.
unfoldable pub release_streams : StreamManager → Bytes → StreamManager
release_streams sm session_id = elim (lookup session_id sm.streams_by_session_id) [
  | none ↦ sm
  | some streams ↦ record {
    streams_by_session_id = delete session_id sm.streams_by_session_id;
    closed = sm.closed ++ map (λ entry. entry.1) streams;
  }
]

-- `AddStream`: the map of the session is made when it is missing, and the stream that is there stays.
unfoldable pub add_stream : StreamManager → Bytes → PeerId → ℕ → StreamManager
add_stream sm session_id peer_id stream = record sm {
  streams_by_session_id =
      insert session_id
        (elim (lookup peer_id (streams_of sm session_id)) [
          | some s ↦ streams_of sm session_id
          | none ↦ insert peer_id stream (streams_of sm session_id)
        ])
        sm.streams_by_session_id;
}

-- `Stream`: `none` is its error.
unfoldable pub stream : StreamManager → Bytes → PeerId → Option ℕ
stream sm session_id peer_id = lookup peer_id (streams_of sm session_id)

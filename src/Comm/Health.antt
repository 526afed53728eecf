-- ===== src/Comm/Health.antt =====
-- tss_util/comm/health.go.
pub mod Reachable
use binance_tss_demo.Prelude.{ℕ, Bytes, List, [], ◌∷◌, ◌++◌, Option, none, some, codes}
use binance_tss_demo.Peers.{PeerId}
use binance_tss_demo.Message.{MessageType, unknown}
use binance_tss_demo.Process.{Error, Failure, Runtime}
use binance_tss_demo.Coordinator.Effects.{Outcome, waiting, returned}
use binance_tss_demo.Comm.Libp2p.Finishing.{steps}
use binance_tss_demo.Comm.Streams.{StreamManager, release_streams}
use binance_tss_demo.Comm.Libp2p.{Network, MessageJson, Written, broadcast}

abbrev pub health_session : Bytes
health_session = codes "health-session"

-- A broadcast to one peer has one task at most, which takes five steps at most, so that it has always
-- returned.
abbrev pub one_task : List ℕ
one_task = steps 5

abbrev pub add_error : Outcome → List Error → List Error
add_error waiting errors = errors
add_error (returned none) errors = errors
add_error (returned (some e)) errors = e ∷ errors

module _ (net : Network) (json : MessageJson) (rt : Runtime) (host : PeerId) where
  -- One peer after the other, each with a broadcast of its own.
  unfoldable pub check_peers : StreamManager → List PeerId → StreamManager × Written × List Error
  check_peers sm [] = (sm, [], [])
  check_peers sm (p ∷ ps) =
      let (sm1, out, outcome) =
        broadcast net json rt one_task host sm (p ∷ []) [] unknown health_session in
      let (sm2, outs, errors) = check_peers sm1 ps in (sm2, out ++ outs, add_error outcome errors)

  -- `ExecuteCommHealthCheck`; the session is closed at the end.
  unfoldable pub execute_comm_health_check :
      StreamManager → List PeerId → StreamManager × Written × List Error
  unfolding check_peers
  execute_comm_health_check sm peers =
      let (sm', out, errors) = check_peers sm peers in
      (release_streams sm' health_session, out, errors)

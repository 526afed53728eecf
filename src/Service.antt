-- ===== src/Service.antt =====
-- service/event_handlers: what the two requests of the API do.
pub mod Once
use binance_tss_demo.Prelude.{
  ℕ, ℤ, pos, negsuc, zero, suc, Bool, true, false, not, ◌&&◌, Bytes, List, [], ◌∷◌, ◌++◌, Option,
  none, some, Result, ok, err, ◌>>=◌, codes, if◌then◌else◌, nat_eq,
}
use binance_tss_demo.Strconv.Hex.{encode_to_string, decode_string}
use binance_tss_demo.Peers.{PeerId, PeerLib}
use binance_tss_demo.Process.{TssProcess, Runtime, Failure, Error}
use binance_tss_demo.Coordinator.Effects.{Log, Outcome, waiting, returned}
use binance_tss_demo.Coordinator.Execute.{Coordinator, Script, execute}
use binance_tss_demo.Keyshare.Ecdsa.{EcdsaKeyshare}
use binance_tss_demo.Ecdsa.Keygen.{new_keygen, keygen_process}
use binance_tss_demo.Ecdsa.Signing.{Signing, PeersJson, signing_process}

unfoldable pub keygen_session_id : Bytes
keygen_session_id = codes "keygen"

unfoldable pub sign_session_id : Bytes → Bytes
sign_session_id hash = codes "sid-sign-" ++ hash

-- `key.Threshold != 0 && err == nil`.
abbrev pub has_key : {Key : Type 0} → Result Bytes (EcdsaKeyshare Key) → Bool
has_key (err e) = false
has_key (ok key) = elim key.threshold [ pos n ↦ not (nat_eq n 0) | negsuc n ↦ true ]

abbrev without_error : Coordinator × Log × Outcome → Coordinator × Log × Outcome
without_error (c, log, waiting) = (c, log, waiting)
without_error (c, log, returned f) = (c, log, returned none)

-- `KeygenEventHandler.HandleEvents`: `fetched` is what GetKeyshare returns, `run` is the protocol. An
-- error of Execute is logged, and not returned.
unfoldable pub handle_keygen :
    {Key : Type 0}
    → PeerLib
    → Runtime
    → (Bool → Bytes → Failure)
    → List PeerId
    → ℕ
    → Result Bytes (EcdsaKeyshare Key)
    → Script
    → Coordinator
    → Coordinator × Log × Outcome
handle_keygen lib rt run peerstore threshold fetched script c =
    if has_key fetched
    then (c, [], returned none)
    else without_error (
        execute lib rt (keygen_process run (new_keygen keygen_session_id threshold peerstore)) []
          script c)

-- tss-lib's SignatureData.
pub record SignatureData : Type 0 where
  pub signature : Bytes
  pub signature_recovery : Bytes

-- What the handler waits for on the result channel, which Execute may have left empty; a nil pointer
-- comes from a node that is not the coordinator. The context is the background, which has no end.
abbrev pub Received : Type 0
Received = Option (Option SignatureData)

-- The handler is done with a text or an error, or waits for ever.
pub data Answer : Type 0 where
  text : Bytes → Answer
  failed : Failure → Answer
  bad_request : Bytes → Answer
  no_answer : Answer

unfoldable pub answer_of : Received → Answer
answer_of none = no_answer
answer_of (some none) = text []
answer_of (some (some sig)) = text (encode_to_string (sig.signature ++ sig.signature_recovery))

-- What follows Execute.
unfoldable pub after_execute : Coordinator × Log × Outcome → Received → Coordinator × Log × Answer
unfolding answer_of
after_execute (c, log, waiting) received = (c, log, no_answer)
after_execute (c, log, returned (some e)) received = (c, log, failed (some e))
after_execute (c, log, returned none) received = (c, log, answer_of received)

-- `NewSigning`, which holds the lock of the key share until it returns; a threshold is not negative.
unfoldable pub new_signing : PeerId → Bytes → Result Bytes (List PeerId × ℕ) → Result Bytes Signing
new_signing host_id session_id fetched = do
  (peers, threshold) ← fetched
  ok (record {
    host_id = host_id;
    session_id = session_id;
    key_peers = peers;
    threshold = threshold;
    peers = peers;
    coordinator = false;
  })

-- `SignEventHandler.HandleEvents`: `fetched` is what GetKeyshare returns, `party` is the protocol on the
-- message of the hash.
unfoldable pub handle_sign :
    PeerLib
    → Runtime
    → PeersJson
    → (Bytes → Signing → Failure)
    → Result Bytes (List PeerId × ℕ)
    → Script
    → Received
    → Bytes
    → Coordinator
    → Coordinator × Log × Answer
unfolding after_execute
handle_sign lib rt json party fetched script received hash c = elim (decode_string hash) [
  | err e ↦ (c, [], bad_request e)
  | ok message ↦ elim (new_signing c.host_id (sign_session_id hash) fetched) [
    | err e ↦ (c, [], bad_request e)
    | ok signing ↦
        after_execute
          (execute lib rt (signing_process lib json (party message) signing) [] script c) received
  ]
]

-- ===== src/Frost/Signing.antt =====
-- tss_util/tss/frost/signing/signing.go: what is decided before and after the protocol, which is
-- multi-party-sig's.
pub mod Subset
use binance_tss_demo.Prelude.{
  ℕ, zero, suc, ◌+◌, ℤ, pos, negsuc, Bool, true, false, Bytes, List, [], ◌∷◌, ◌++◌, Result, ok, err,
  ◌>>=◌, Option, none, some, length, contains, keep, nat_eq, if◌then◌else◌, bytes_Comparable,
}
use binance_tss_demo.Peers.{PeerId, PeerLib, is_participant}
use binance_tss_demo.Process.{Error, subset_error, TssProcess, Failure}
use binance_tss_demo.Session.{PeerMsg, sort_peers_for_session}
use binance_tss_demo.Keyshare.Frost.{Curve, TaprootConfig, FrostKeyshare}
use binance_tss_demo.Frost.Parties.{party_ids_from_peers}
use binance_tss_demo.Ecdsa.Signing.{PeersJson}

-- `Signing`, with the fields of BaseFrostTss that the methods read.
pub record Signing (curve : Curve) : Type 0 where
  pub host_id : PeerId
  pub session_id : Bytes
  pub id : ℤ
  pub msg : Bytes
  pub key : FrostKeyshare curve
  pub peers : List PeerId
  pub coordinator : Bool

-- What the code calls of encoding/hex and multi-party-sig; `derive` is for one curve.
pub record Tweaking (curve : Curve) : Type 0 where
  pub decode_hex : Bytes → Result Bytes Bytes
  pub derive : TaprootConfig curve → curve.Scalar → Result Bytes (TaprootConfig curve)

-- `NewSigning`, which holds the lock of the key share until it returns; `fetched` is what GetKeyshare
-- returns.
unfoldable pub new_signing :
    {curve : Curve}
    → Tweaking curve
    → ℤ
    → Bytes
    → Bytes
    → Bytes
    → PeerId
    → Result Bytes (FrostKeyshare curve)
    → Result Bytes (Signing curve)
new_signing {curve} tweaking id msg tweak session_id host_id fetched = do
  key ← fetched
  tweak_bytes ← tweaking.decode_hex tweak
  h ← curve.unmarshal_scalar tweak_bytes
  derived ← tweaking.derive key.key h
  ok (record {
    host_id = host_id;
    session_id = session_id;
    id = id;
    msg = msg;
    key = record key { key = derived };
    peers = key.peers;
    coordinator = false;
  })

-- `len(peers) == threshold+1`.
unfoldable pub is_size : ℕ → ℤ → Bool
is_size n (pos threshold) = nat_eq n (threshold + 1)
is_size n (negsuc zero) = nat_eq n 0
is_size n (negsuc (suc m)) = false

-- `readyParticipants`: the ready peers that hold a key share.
unfoldable pub ready_participants : {curve : Curve} → Signing curve → List PeerId → List PeerId
ready_participants s ready_peers = keep (contains s.key.peers) ready_peers

-- `Ready`: the excluded peers are not looked at, and the error is nil.
unfoldable pub ready :
    {curve : Curve} → Signing curve → List PeerId → List PeerId → Result Error Bool
unfolding ready_participants is_size
ready s ready_peers excluded =
    ok (is_size (length (ready_participants s ready_peers)) s.key.threshold)

-- The loop of `StartParams`, which breaks when the subset is of the size wanted.
unfoldable pub choose : ℤ → List PeerId → List PeerMsg → List PeerId
unfolding is_size
choose threshold subset [] = subset
choose threshold subset (m ∷ ms) =
    let grown = subset ++ m.id ∷ [] in
    let rest = choose threshold grown ms in if is_size (length grown) threshold then grown else rest

-- What the protocol starts with: the key, the ids of the parties, the message and the session.
pub record SignInput (curve : Curve) : Type 0 where
  pub config : TaprootConfig curve
  pub party_ids : List Bytes
  pub msg : Bytes
  pub session_id : Bytes

module _ {curve : Curve} (lib : PeerLib) (json : PeersJson) where
  unfoldable pub peer_subset : Signing curve → List PeerId → List PeerId
  unfolding choose ready_participants
  peer_subset s ready_peers =
      choose s.key.threshold []
        (sort_peers_for_session lib (ready_participants s ready_peers) s.session_id)

  unfoldable pub start_params : Signing curve → List PeerId → Bytes
  unfolding peer_subset
  start_params s ready_peers = json.marshal (peer_subset s ready_peers)

  -- `Run` up to the start of the party: the state, and the error that it returns. The peers are set
  -- before the test.
  unfoldable pub run_until_party : Signing curve → Bool → Bytes → Signing curve × Failure
  run_until_party s coordinator params =
      let t = record s { coordinator = coordinator } in
      elim (json.unmarshal params) [
        | err e ↦ (t, some e)
        | ok subset ↦ (
          record t { peers = subset },
          if is_participant lib s.host_id subset then none else some (subset_error s.host_id),
        )
      ]

  -- `to_slice` lists a set of peers.
  unfoldable pub sign_input : (List PeerId → List PeerId) → Signing curve → SignInput curve
  sign_input to_slice s = record {
    config = s.key.key;
    party_ids = party_ids_from_peers lib to_slice s.peers;
    msg = s.msg;
    session_id = s.session_id;
  }

  -- `protocol` is what the pool returns for the protocol with an input.
  run :
      (List PeerId → List PeerId)
      → (SignInput curve → Failure)
      → Signing curve
      → Bool
      → Bytes
      → Failure
  unfolding run_until_party sign_input
  run to_slice protocol s coordinator params =
      let (t, f) = run_until_party s coordinator params in
      elim f [ some e ↦ some e | none ↦ protocol (sign_input to_slice t) ]

  -- The process as the coordinator sees it.
  unfoldable pub signing_process :
      (List PeerId → List PeerId) → (SignInput curve → Failure) → Signing curve → TssProcess
  unfolding ready start_params run
  signing_process to_slice protocol s = record {
    session_id = s.session_id;
    valid_coordinators = s.key.peers;
    retryable = true;
    ready = ready s;
    start_params = start_params s;
    run = run to_slice protocol s;
  }

-- What the select of `processEndMessage` takes first: Done, with the result of the handler, or the end
-- of the context.
pub data EndEvent (Signature : Type 0) : Type 0 where
  finished : Result Error Signature → EndEvent Signature
  ended : EndEvent Signature

-- What goes to the result channel, and the error.
unfoldable pub process_end_message :
    {curve : Curve} {Signature : Type 0}
    → Signing curve
    → EndEvent Signature
    → Option (ℤ × Signature) × Failure
process_end_message s (finished (ok signature)) = (some (s.id, signature), none)
process_end_message s (finished (err e)) = (none, some e)
process_end_message s ended = (none, none)

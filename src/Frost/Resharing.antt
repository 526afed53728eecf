-- ===== src/Frost/Resharing.antt =====
-- tss_util/tss/frost/resharing/resharing.go: what is decided before and after the protocol, which is
-- multi-party-sig's.
pub mod Shares
use binance_tss_demo.Prelude.{
  ℕ, ℤ, pos, Bool, true, false, Bytes, List, [], ◌∷◌, ◌++◌, Option, none, some, Result, ok, err,
  length, nat_eq, if◌then◌else◌, bytes_Comparable, codes,
}
use binance_tss_demo.Prelude.Maps.{lookup, insert}
use binance_tss_demo.Peers.{PeerId, PeerLib}
use binance_tss_demo.Process.{Error, other, TssProcess, Failure}
use binance_tss_demo.Storage.{Json, File, Disk}
use binance_tss_demo.Keyshare.Frost.{
  Curve, TaprootConfig, FrostKeyshare, FrostKeyshareStore, store_keyshare,
}
use binance_tss_demo.Frost.Parties.{party_ids_from_peers}
use binance_tss_demo.Frost.Keygen.{EndEvent, finished, ended, as_failure}

-- `Resharing`; `peerstore` is what the host's peerstore holds now, `peers` what it held when the
-- process was made.
pub record Resharing (curve : Curve) : Type 0 where
  pub host_id : PeerId
  pub session_id : Bytes
  pub peerstore : List PeerId
  pub peers : List PeerId
  pub key : FrostKeyshare curve
  pub new_threshold : ℤ

-- The shares are a nil map (`none`) if the text says null.
pub record StartParams (curve : Curve) : Type 0 where
  pub public_key : Bytes
  pub verification_shares : Option (List (Bytes × curve.Point))

-- encoding/json on start parameters; their encoding does not fail.
pub record ParamsJson (curve : Curve) : Type 0 where
  pub marshal : StartParams curve → Bytes
  pub unmarshal : Bytes → Result Error (StartParams curve)

-- The key share of a node that has none.
empty_key : (curve : Curve) → PeerLib → PeerId → ℤ → FrostKeyshare curve
empty_key curve lib host_id threshold = record {
  key = record {
    id = lib.pretty host_id;
    threshold = threshold;
    private_share = curve.zero_scalar;
    public_key = [];
    chain_key = [];
    verification_shares = [];
  };
  threshold = pos 0;
  peers = [];
}

with_threshold : {curve : Curve} → ℤ → FrostKeyshare curve → FrostKeyshare curve
with_threshold threshold key = record key { key = record key.key { threshold = threshold } }

fetched_key :
    (curve : Curve)
    → PeerLib
    → PeerId
    → ℤ
    → Result Bytes (FrostKeyshare curve)
    → FrostKeyshare curve
unfolding empty_key
fetched_key curve lib host_id threshold (ok key) = key
fetched_key curve lib host_id threshold (err e) = empty_key curve lib host_id threshold

-- `NewResharing`, once it has the lock of the key share; `fetched` is what GetKeyshare returns.
unfoldable pub new_resharing :
    (curve : Curve)
    → PeerLib
    → Bytes
    → ℤ
    → PeerId
    → List PeerId
    → Result Bytes (FrostKeyshare curve)
    → Resharing curve
unfolding with_threshold fetched_key
new_resharing curve lib session_id threshold host_id peerstore fetched = record {
  host_id = host_id;
  session_id = session_id;
  peerstore = peerstore;
  peers = peerstore;
  key = with_threshold threshold (fetched_key curve lib host_id threshold fetched);
  new_threshold = threshold;
}

-- `Ready`: the excluded peers are not looked at.
unfoldable pub ready :
    {curve : Curve} → Resharing curve → List PeerId → List PeerId → Result Error Bool
ready r ready_peers excluded = ok (nat_eq (length ready_peers) (length r.peerstore))

unfoldable pub start_params :
    {curve : Curve} → ParamsJson curve → Resharing curve → List PeerId → Bytes
start_params json r ready_peers = json.marshal (record {
  public_key = r.key.key.public_key;
  verification_shares = some r.key.key.verification_shares;
})

-- The loop over the party ids: each that has no share gets a new point.
unfoldable pub add_shares :
    {Point : Type 0} → Point → List Bytes → List (Bytes × Point) → List (Bytes × Point)
add_shares new_point [] shares = shares
add_shares new_point (id ∷ ids) shares =
    add_shares new_point ids
      (elim (lookup id shares) [ some point ↦ shares | none ↦ insert id new_point shares ])

-- The public key and the shares that the loop starts from.
unfoldable pub initial_shares :
    {curve : Curve}
    → Resharing curve
    → StartParams curve
    → Bytes × Option (List (Bytes × curve.Point))
initial_shares r params =
    if nat_eq (length r.key.key.verification_shares) 0
    then (params.public_key, params.verification_shares)
    else (r.key.key.public_key, some r.key.key.verification_shares)

-- `Run` up to the start of the protocol: the key it starts with, or an error, or the panic of a write
-- to a nil map.
pub data Prepared (curve : Curve) : Type 0 where
  prepared : Resharing curve → List Bytes → Prepared curve
  failed : Error → Prepared curve
  panicked : Prepared curve

with_shares :
    {curve : Curve} → Resharing curve → Bytes → List (Bytes × curve.Point) → Resharing curve
with_shares r public_key shares = record r {
  key = record r.key {
    key = record r.key.key { public_key = public_key; verification_shares = shares };
  };
}

-- The host is among the parties, so a nil map is written to.
unfoldable pub fill :
    {curve : Curve}
    → Resharing curve
    → List Bytes
    → Bytes × Option (List (Bytes × curve.Point))
    → Prepared curve
unfolding with_shares add_shares
fill {curve} r ids (public_key, none) = panicked
fill {curve} r ids (public_key, some shares) =
    prepared (with_shares r public_key (add_shares curve.new_point ids shares)) ids

module _ {curve : Curve} (lib : PeerLib) (to_slice : List PeerId → List PeerId)
    (json : ParamsJson curve) where
  -- The set of the parties is listed twice, in whatever order; the list that the protocol gets is taken
  -- to be the one of the loop.
  unfoldable pub party_ids : Resharing curve → List Bytes
  party_ids r = party_ids_from_peers lib to_slice (r.peerstore ++ r.host_id ∷ [])

  unfoldable pub prepare : Resharing curve → Bytes → Prepared curve
  unfolding fill initial_shares party_ids
  prepare r bytes = elim (json.unmarshal bytes) [
    | err e ↦ failed e
    | ok params ↦ fill r (party_ids r) (initial_shares r params)
  ]

  -- What `Run` returns; `protocol` is what the pool returns for the protocol with a key and parties,
  -- and `crash` stands for the panic, which leaves the function.
  run :
      (TaprootConfig curve → List Bytes → Failure)
      → Failure
      → Resharing curve
      → Bool
      → Bytes
      → Failure
  unfolding prepare
  run protocol crash r coordinator bytes = elim (prepare r bytes) [
    | prepared s ids ↦ protocol s.key.key ids
    | failed e ↦ some e
    | panicked ↦ crash
  ]

  -- The process as the coordinator sees it.
  unfoldable pub resharing_process :
      (TaprootConfig curve → List Bytes → Failure) → Failure → Resharing curve → TssProcess
  unfolding ready start_params run
  resharing_process protocol crash r = record {
    session_id = r.session_id;
    valid_coordinators = r.key.peers;
    retryable = false;
    ready = ready r;
    start_params = start_params json r;
    run = run protocol crash r;
  }

-- `processEndMessage` with the file of the key share.
unfoldable pub process_end_message :
    (curve : Curve)
    → Json FrostKeyshareStore
    → Disk
    → Resharing curve
    → EndEvent (TaprootConfig curve)
    → File
    → File × Failure
process_end_message curve json disk r (finished (err e)) file = (file, some e)
process_end_message curve json disk r (finished (ok config)) file = as_failure (
    store_keyshare curve json disk
      (record { key = config; threshold = r.new_threshold; peers = r.peers }) file)
process_end_message curve json disk r ended file = (file, none)

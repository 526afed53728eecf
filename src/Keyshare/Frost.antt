-- ===== src/Keyshare/Frost.antt =====
-- tss_util/keyshare/frost.go.
use binance_tss_demo.Prelude.{ℤ, Bytes, List, [], ◌∷◌, Option, Result, ok, ◌>>=◌, codes}
use binance_tss_demo.Peers.{PeerId}
use binance_tss_demo.Storage.{Json, prefixed, File, Disk, store_text, read_file}

-- The curve of multi-party-sig: its scalars and points, the ones that are made without a value, and
-- their binary form.
pub record Curve : Type 1 where
  pub Scalar : Type 0
  pub Point : Type 0
  pub zero_scalar : Scalar
  pub new_point : Point
  pub marshal_scalar : Scalar → Result Bytes Bytes
  pub unmarshal_scalar : Bytes → Result Bytes Scalar
  pub marshal_point : Point → Result Bytes Bytes
  pub unmarshal_point : Bytes → Result Bytes Point

-- multi-party-sig's TaprootConfig; the map of the verification shares is an association list.
pub record TaprootConfig (curve : Curve) : Type 0 where
  pub id : Bytes
  pub threshold : ℤ
  pub private_share : curve.Scalar
  pub public_key : Bytes
  pub chain_key : Bytes
  pub verification_shares : List (Bytes × curve.Point)

pub record FrostKeyshare (curve : Curve) : Type 0 where
  pub key : TaprootConfig curve
  pub threshold : ℤ
  pub peers : List PeerId

pub record FrostKey : Type 0 where
  pub id : Bytes
  pub threshold : ℤ
  pub private_share : Bytes
  pub public_key : Bytes
  pub chain_key : Bytes
  pub verification_shares : List (Bytes × Bytes)

pub record FrostKeyshareStore : Type 0 where
  pub key : FrostKey
  pub threshold : ℤ
  pub peers : List PeerId

-- The loops over the verification shares: the first error ends them.
unfoldable pub each_share :
    {A B : Type 0} → (A → Result Bytes B) → List (Bytes × A) → Result Bytes (List (Bytes × B))
each_share convert [] = ok []
each_share convert ((id, a) ∷ shares) = do
  b ← convert a
  rest ← each_share convert shares
  ok ((id, b) ∷ rest)

module _ (curve : Curve) (json : Json FrostKeyshareStore) where
  -- `StoreKeyshare` after the file is opened, up to the write.
  unfoldable pub keyshare_text : FrostKeyshare curve → Result Bytes Bytes
  unfolding each_share
  keyshare_text keyshare = do
    private_share ← curve.marshal_scalar keyshare.key.private_share
    verification_shares ← each_share curve.marshal_point keyshare.key.verification_shares
    json.marshal (record {
      key = record {
        id = keyshare.key.id;
        threshold = keyshare.key.threshold;
        private_share = private_share;
        public_key = keyshare.key.public_key;
        chain_key = keyshare.key.chain_key;
        verification_shares = verification_shares;
      };
      threshold = keyshare.threshold;
      peers = keyshare.peers;
    })

  unfoldable pub store_keyshare : Disk → FrostKeyshare curve → File → File × Option Bytes
  unfolding keyshare_text
  store_keyshare disk keyshare file = store_text disk (keyshare_text keyshare) file

  -- What `GetKeyshare` makes of the text that is read.
  unfoldable pub keyshare_of : FrostKeyshareStore → Result Bytes (FrostKeyshare curve)
  unfolding each_share
  keyshare_of stored = do
    private_share ← curve.unmarshal_scalar stored.key.private_share
    verification_shares ← each_share curve.unmarshal_point stored.key.verification_shares
    ok (record {
      key = record {
        id = stored.key.id;
        threshold = stored.key.threshold;
        private_share = private_share;
        public_key = stored.key.public_key;
        chain_key = stored.key.chain_key;
        verification_shares = verification_shares;
      };
      threshold = stored.threshold;
      peers = stored.peers;
    })

  -- The key share that comes with an error is left out.
  unfoldable pub get_keyshare : File → Result Bytes (FrostKeyshare curve)
  unfolding keyshare_of
  get_keyshare file = do
    text ← prefixed (codes "error on reading keyshare file: ") (read_file file)
    stored ← prefixed (codes "error on unmarshaling keyshare file: ") (json.unmarshal text)
    keyshare_of stored

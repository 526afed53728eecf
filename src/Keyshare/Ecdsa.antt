-- ===== src/Keyshare/Ecdsa.antt =====
-- tss_util/keyshare/ecdsa.go. The lock is the processes' (LockKeyshare, UnlockKeyshare).
use binance_tss_demo.Prelude.{ℤ, Bytes, List, Option, Result, codes, ◌>>=◌}
use binance_tss_demo.Peers.{PeerId}
use binance_tss_demo.Storage.{Json, prefixed, File, Disk, store_text, read_file}

-- `Key` is tss-lib's LocalPartySaveData.
pub record EcdsaKeyshare (Key : Type 0) : Type 0 where
  pub key : Key
  pub threshold : ℤ
  pub peers : List PeerId

module _ {Key : Type 0} (json : Json (EcdsaKeyshare Key)) where
  unfoldable pub store_keyshare : Disk → EcdsaKeyshare Key → File → File × Option Bytes
  store_keyshare disk keyshare file = store_text disk (json.marshal keyshare) file

  -- The key share that comes with an error is left out.
  unfoldable pub get_keyshare : File → Result Bytes (EcdsaKeyshare Key)
  get_keyshare file = do
    text ← prefixed (codes "error on reading keyshare file: ") (read_file file)
    prefixed (codes "error on unmarshaling keyshare file: ") (json.unmarshal text)

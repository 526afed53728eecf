-- ===== src/Ecdsa/Keygen/Stored.antt =====
-- The end message of a key generation, and the key share that is read after it.
use binance_tss_demo.Prelude.{◌≡◌, refl, Bytes, Option, none, some, ok, pos}
use binance_tss_demo.Storage.{File, Disk, Json, IsJson}
use binance_tss_demo.Keyshare.Ecdsa.{EcdsaKeyshare, store_keyshare, get_keyshare}
use binance_tss_demo.Keyshare.Stored.{get-store_ecdsa}
use binance_tss_demo.Ecdsa.Keygen.{Keygen, generated, as_failure, process_end_message}

as_failure-file : (r : File × Option Bytes) → (as_failure r).0 ≡ r.0
as_failure-file (file, none) = refl
as_failure-file (file, some e) = refl

as_failure-none : (r : File × Option Bytes) → (as_failure r).1 ≡ none → r.1 ≡ none
as_failure-none (file, none) h = refl
as_failure-none (file, some e) h = absurd (cc)

-- A key share whose store returns no error to the process is read back.
pub get-as_failure :
    {Key : Type 0} (json : Json (EcdsaKeyshare Key)) (disk : Disk) (keyshare : EcdsaKeyshare Key)
    (file : File)
    → IsJson json
    → (as_failure (store_keyshare json disk keyshare file)).1 ≡ none
    → get_keyshare json (as_failure (store_keyshare json disk keyshare file)).0 ≡ ok keyshare
get-as_failure json disk keyshare file is h =
    let stored = store_keyshare json disk keyshare file in
    rw (as_failure-file stored)
      (get-store_ecdsa json disk keyshare file is (as_failure-none stored h))

-- What is read after the key of a key generation has come and no error was returned.
pub get-process_end_message :
    {Key : Type 0} (json : Json (EcdsaKeyshare Key)) (disk : Disk) (k : Keygen) (key : Key)
    (file : File)
    → IsJson json
    → (process_end_message json disk k (generated key) file).1 ≡ none
    → get_keyshare json (process_end_message json disk k (generated key) file).0
      ≡ ok (record { key = key; threshold = pos k.threshold; peers = k.peers })
unfolding process_end_message
get-process_end_message json disk k key file is h = get-as_failure json disk _ file is h

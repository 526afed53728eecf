-- ===== src/Service/Once.antt =====
-- What the handlers answer.
use binance_tss_demo.Prelude.{
  ℕ, ◌≡◌, refl, Bool, true, Bytes, List, [], none, contains, nat_Comparable, false, nat_eq,
}
use binance_tss_demo.Peers.{PeerId, PeerLib}
use binance_tss_demo.Process.{Runtime, Failure}
use binance_tss_demo.Message.{MessageType}
use binance_tss_demo.Comm.Subscriptions.{Subscribers, subscribe_to, un_subscribe_from}
use binance_tss_demo.Comm.Subscriptions.Leak.{unsubscribe_dashed}
use binance_tss_demo.Coordinator.Effects.{returned}
use binance_tss_demo.Coordinator.Execute.{Coordinator, Script}
use binance_tss_demo.Storage.{File, Disk, Json, IsJson}
use binance_tss_demo.Keyshare.Ecdsa.{EcdsaKeyshare, get_keyshare}
use binance_tss_demo.Ecdsa.Keygen.{Keygen, generated, process_end_message}
use binance_tss_demo.Ecdsa.Keygen.Stored.{get-process_end_message}
use binance_tss_demo.Service.{sign_session_id, handle_keygen}

-- Once the key of a key generation, with a threshold that is not 0, has come and no error was returned, a
-- later request for a key generation runs nothing, changes nothing and returns, if key shares are read
-- back as they were written.
pub handle_keygen-stored :
    {Key : Type 0} (json : Json (EcdsaKeyshare Key)) (disk : Disk) (k : Keygen) (key : Key)
    (file : File) (lib : PeerLib) (rt : Runtime) (run : Bool → Bytes → Failure)
    (peerstore : List PeerId) (threshold : ℕ) (script : Script) (c : Coordinator)
    → IsJson json
    → nat_eq k.threshold 0 ≡ false
    → (process_end_message json disk k (generated key) file).1 ≡ none
    → handle_keygen lib rt run peerstore threshold
        (get_keyshare json (process_end_message json disk k (generated key) file).0)
        script
        c
      ≡ (c, [], returned none)
unfolding handle_keygen
handle_keygen-stored json disk k key file lib rt run peerstore threshold script c is positive
      stored =
    rw (get-process_end_message json disk k key file is stored, positive) refl

sign_session-dashed : (hash : Bytes) → contains (sign_session_id hash) 45 ≡ true
unfolding sign_session_id
sign_session-dashed hash = refl

-- Whatever hash is signed, a subscription of its session is never removed.
pub sign_subscriptions-leak :
    (m : Subscribers) (hash : Bytes) (t : MessageType) (channel now : ℕ)
    → let (m', id) = subscribe_to m (sign_session_id hash) t channel now in
      un_subscribe_from m' id ≡ m'
unfolding subscribe_to
sign_subscriptions-leak m hash t channel now =
    unsubscribe_dashed _ (sign_session_id hash) t now (sign_session-dashed hash)

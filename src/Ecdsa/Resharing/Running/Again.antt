-- ===== src/Ecdsa/Resharing/Running/Again.antt =====
-- A resharing after a resharing.
use binance_tss_demo.Prelude.{
  ◌≡◌, ℤ, is_positive, is_below, true, false, Bytes, List, none, ok, length, contains, text_less,
  bytes_Comparable, Perm,
}
use binance_tss_demo.Sort.{sort}
use binance_tss_demo.Peers.{PeerId, peers_intersection}
use binance_tss_demo.Storage.{File, Disk, Json, IsJson}
use binance_tss_demo.Keyshare.Ecdsa.{EcdsaKeyshare, get_keyshare}
use binance_tss_demo.Ecdsa.Keygen.{generated}
use binance_tss_demo.Ecdsa.Keygen.Stored.{get-as_failure}
use binance_tss_demo.Ecdsa.Resharing.{ParamsJson, Resharing, start_params, unmarshall_start_params}
use binance_tss_demo.Ecdsa.Resharing.Accepts.{IsParamsJson, start_params-accepted}
use binance_tss_demo.Ecdsa.Resharing.Running.{new_resharing, process_end_message}

get-process_end_message :
    {Key : Type 0} (json : Json (EcdsaKeyshare Key)) (disk : Disk) (r : Resharing) (key : Key)
    (file : File)
    → IsJson json
    → (process_end_message json disk r (generated key) file).1 ≡ none
    → get_keyshare json (process_end_message json disk r (generated key) file).0
      ≡ ok (record { key = key; threshold = r.new_threshold; peers = r.peers })
unfolding process_end_message
get-process_end_message json disk r key file is h = get-as_failure json disk _ file is h

-- Two nodes that have stored a reshared key without an error, with the same peers but for their order,
-- agree when the key is reshared again: the second takes the start parameters of the first, with the
-- threshold of the resharing before and its peers that are still known, if both know the same peers, that
-- threshold is positive and not above the number of these peers, and key shares and start parameters are
-- read back as they were written.
pub reshared-accepted :
    {Key : Type 0} (shares : Json (EcdsaKeyshare Key)) (json : ParamsJson) (c r : Resharing)
    (c_disk r_disk : Disk) (c_key r_key : Key) (c_file r_file : File) (session_id : Bytes)
    (threshold : ℤ) (c_store r_store ready_peers : List PeerId)
    → IsJson shares
    → IsParamsJson json
    → (process_end_message shares c_disk c (generated c_key) c_file).1 ≡ none
    → (process_end_message shares r_disk r (generated r_key) r_file).1 ≡ none
    → Perm c.peers r.peers
    → ((p : PeerId) → contains c_store p ≡ contains r_store p)
    → is_positive c.new_threshold ≡ true
    → is_below (length (peers_intersection c.peers c_store)) c.new_threshold ≡ false
    → let c_share =
        get_keyshare shares (process_end_message shares c_disk c (generated c_key) c_file).0 in
      let r_share =
        get_keyshare shares (process_end_message shares r_disk r (generated r_key) r_file).0 in
      (unmarshall_start_params json
        (new_resharing session_id threshold r_store r_share)
        (start_params json (new_resharing session_id threshold c_store c_share) ready_peers)).1
      ≡ ok (record {
        old_threshold = c.new_threshold;
        old_subset = sort text_less (peers_intersection c.peers c_store);
      })
unfolding new_resharing
reshared-accepted shares json c r c_disk r_disk c_key r_key c_file r_file session_id threshold
      c_store r_store ready_peers is round c_stored r_stored same stores positive fits =
    rw
      (
        get-process_end_message shares c_disk c c_key c_file is c_stored,
        get-process_end_message shares r_disk r r_key r_file is r_stored,
      )
      (start_params-accepted json _ _ ready_peers round same stores positive fits)

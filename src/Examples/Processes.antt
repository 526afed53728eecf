-- ===== src/Examples/Processes.antt =====
-- Key generation and resharing.

use binance_tss_demo.Prelude.{
  ◌≡◌, ◌↔◌, inl, inr, refl, ℤ, is_positive, is_below, true, false, Bool, Bytes, List, [], ◌∷◌, none,
  ok, err, length, contains, bytes_Comparable, codes, text_less, Result, arith, pos, negsuc, ℕ,
  zero, suc, ap, ◌∙◌, sym, ok_same,
}
use binance_tss_demo.Peers.{PeerId, peers_intersection}
use binance_tss_demo.Process.{Failure, Error, other}
use binance_tss_demo.Sort.{sort, insert_all, insert}
use binance_tss_demo.Coordinator.Effects.{IsIn, runs}
use binance_tss_demo.Coordinator.Initiate.{
  InitiateEvent, ready_msg, tick, initiate, initiate_loop, on_ready, start_all, add_ready,
}
use binance_tss_demo.Coordinator.Initiate.Ready.{senders}
use binance_tss_demo.Ecdsa.Keygen.{Keygen, keygen_process, ready}
use binance_tss_demo.Ecdsa.Keygen.Everyone.{keygen-everyone}
use binance_tss_demo.Ecdsa.Resharing
use binance_tss_demo.Ecdsa.Resharing.{
  StartParams, ParamsJson, validate_start_params, unmarshall_start_params, start_params,
}
use binance_tss_demo.Ecdsa.Resharing.Accepts.{IsParamsJson, IsOwnSubset, validate-accepts}
use binance_tss_demo.Ecdsa.Resharing.Running.{new_resharing, process_end_message}
use binance_tss_demo.Ecdsa.Resharing.Running.Again.{reshared-accepted}
use binance_tss_demo.Ecdsa.Keygen.{generated}
use binance_tss_demo.Keyshare.Ecdsa.{EcdsaKeyshare, store_keyshare, get_keyshare}
use binance_tss_demo.Storage.{Disk, Json, IsJson, store_text}
use binance_tss_demo.Examples.World.{p1, p2, p3, sid, rt, up, mixed, up-mixed}

abbrev generator : Keygen
generator = record { session_id = sid; peerstore = up; peers = up; threshold = 1 }

abbrev finished : Bool → Bytes → Failure
finished coordinator params = none

abbrev events : List InitiateEvent
events = ready_msg p3 ∷ tick ∷ ready_msg p3 ∷ ready_msg p2 ∷ []

all_known : (p : PeerId) → contains (p1 ∷ senders events) p ≡ true → contains up p ≡ true
all_known p h = ground arith

runs_once : IsIn (runs true []) (initiate rt (keygen_process finished generator) [] [] p1 events).0
unfolding initiate initiate_loop on_ready start_all add_ready keygen_process ready
runs_once = inr (inr (inr (inr (inl refl))))

keygen-everyone_example :
    (◌≡◌ {A = List PeerId} [] [])
    × ((p : PeerId) → contains up p ≡ true → contains (p1 ∷ senders events) p ≡ true)
keygen-everyone_example =
    keygen-everyone rt generator finished [] [] p1 events [] all_known runs_once

abbrev sharer : Resharing.Resharing
sharer = record {
  session_id = sid;
  peerstore = up;
  peers = up;
  key_threshold = pos 1;
  key_peers = mixed;
  new_threshold = pos 2;
}

abbrev other_sharer : Resharing.Resharing
other_sharer = record sharer { key_peers = up }

abbrev old_params : StartParams
old_params = record { old_threshold = pos 1; old_subset = p3 ∷ p1 ∷ p2 ∷ [] }

validate_test : (validate_start_params sharer old_params).2 ≡ none
unfolding validate_start_params sort insert_all insert peers_intersection
validate_test = refl

validate-accepts_example : ((validate_start_params sharer old_params).2 ≡ none) ↔ (
    (is_positive (pos 1) ≡ true)
    × (is_below (length (old_params.old_subset)) (pos 1) ≡ false)
    × IsOwnSubset sharer old_params)
validate-accepts_example = validate-accepts sharer old_params

-- A text for start parameters: the sign and the threshold, then the bytes of each peer, each one
-- greater, with a zero after the last.
abbrev peer_text : PeerId → Bytes → Bytes
peer_text [] rest = 0 ∷ rest
peer_text (b ∷ bs) rest = suc b ∷ peer_text bs rest

abbrev peers_text : List PeerId → Bytes
peers_text [] = []
peers_text (p ∷ ps) = peer_text p (peers_text ps)

abbrev with_byte : ℕ → List PeerId → List PeerId
with_byte b [] = (b ∷ []) ∷ []
with_byte b (p ∷ ps) = (b ∷ p) ∷ ps

abbrev read_peers : Bytes → List PeerId
read_peers [] = []
read_peers (zero ∷ rest) = [] ∷ read_peers rest
read_peers (suc b ∷ rest) = with_byte b (read_peers rest)

read_peer : (p : PeerId) (rest : Bytes) → read_peers (peer_text p rest) ≡ p ∷ read_peers rest
read_peer [] rest = refl
read_peer (b ∷ bs) rest = ap (with_byte b) (read_peer bs rest)

read_peers-text : (ps : List PeerId) → read_peers (peers_text ps) ≡ ps
read_peers-text [] = refl
read_peers-text (p ∷ ps) = read_peer p (peers_text ps) ∙ ap (◌∷◌ p) (read_peers-text ps)

abbrev params_text : StartParams → Bytes
params_text params = elim (params.old_threshold) [
  | pos n ↦ 0 ∷ n ∷ peers_text params.old_subset
  | negsuc n ↦ 1 ∷ n ∷ peers_text params.old_subset
]

abbrev read_text : Bytes → Result Error StartParams
read_text (zero ∷ n ∷ rest) = ok (record { old_threshold = pos n; old_subset = read_peers rest })
read_text (suc s ∷ n ∷ rest) =
    ok (record { old_threshold = negsuc n; old_subset = read_peers rest })
read_text _ = err (other (codes "unexpected end"))

abbrev params_json : ParamsJson
params_json = record { marshal = params_text; unmarshal = read_text }

read_text-params :
    (t : ℤ) (ps : List PeerId)
    → read_text (params_text (record { old_threshold = t; old_subset = ps }))
      ≡ ok (record { old_threshold = t; old_subset = ps })
read_text-params (pos n) ps =
    ap (λ qs. ok (record { old_threshold = pos n; old_subset = qs })) (read_peers-text ps)
read_text-params (negsuc n) ps =
    ap (λ qs. ok (record { old_threshold = negsuc n; old_subset = qs })) (read_peers-text ps)

params_json-IsParamsJson : IsParamsJson params_json
params_json-IsParamsJson = record {
  round_trip = λ params. read_text-params params.old_threshold params.old_subset;
}

-- Key shares without a key, as the text of their threshold and peers.
abbrev as_params : EcdsaKeyshare (Unit {0}) → StartParams
as_params s = record { old_threshold = s.threshold; old_subset = s.peers }

abbrev share_of : Result Error StartParams → Result Bytes (EcdsaKeyshare (Unit {0}))
share_of (err e) = err []
share_of (ok p) = ok (record { key = tt; threshold = p.old_threshold; peers = p.old_subset })

abbrev shares : Json (EcdsaKeyshare (Unit {0}))
shares = record {
  marshal = λ s. ok (params_text (as_params s));
  unmarshal = λ b. share_of (read_text b);
}

share-text :
    (s : EcdsaKeyshare (Unit {0})) (b : Bytes)
    → ◌≡◌ {A = Result Bytes Bytes} (ok (params_text (as_params s))) (ok b)
    → share_of (read_text b) ≡ ok s
share-text s b h = rw (sym (ok_same h), read_text-params s.threshold s.peers) refl

shares-IsJson : IsJson shares
shares-IsJson = record { round_trip = share-text }

abbrev fine : Disk
fine = record { open_error = none; write_error = none }

abbrev newcomer : Resharing.Resharing
newcomer = record sharer { peers = mixed; key_peers = [] }

sharer_test : (process_end_message shares fine sharer (generated tt) none).1 ≡ none
unfolding process_end_message store_keyshare store_text
sharer_test = refl

newcomer_test : (process_end_message shares fine newcomer (generated tt) none).1 ≡ none
unfolding process_end_message store_keyshare store_text
newcomer_test = refl

reshared-accepted_example :
    (unmarshall_start_params params_json
      (new_resharing sid
        (pos 1)
        up
        (get_keyshare shares (process_end_message shares fine newcomer (generated tt) none).0))
      (start_params params_json
        (new_resharing sid
          (pos 1)
          up
          (get_keyshare shares (process_end_message shares fine sharer (generated tt) none).0))
        [])).1
    ≡ ok (record { old_threshold = pos 2; old_subset = sort text_less (peers_intersection up up) })
unfolding peers_intersection
reshared-accepted_example =
    reshared-accepted shares params_json sharer newcomer fine fine tt tt none none sid (pos 1) up up
      [] shares-IsJson params_json-IsParamsJson sharer_test newcomer_test up-mixed (λ p. refl) refl
      refl

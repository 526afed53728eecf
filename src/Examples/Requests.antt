-- ===== src/Examples/Requests.antt =====
-- Requests of the API, in the small world.
use binance_tss_demo.Prelude.{
  false, ℕ, ◌≡◌, refl, sym, Bool, Bytes, List, [], ◌∷◌, none, some, Result, ok, err, codes, pos, ℤ,
}
use binance_tss_demo.Strconv.Hex.{decode_string, encode_to_string}
use binance_tss_demo.Process.{Failure}
use binance_tss_demo.Sort.{sort}
use binance_tss_demo.Session.{sort_peers_for_session, hash}
use binance_tss_demo.Peers.{is_participant}
use binance_tss_demo.Elector.Static.{static_coordinator}
use binance_tss_demo.Coordinator.Effects.{Log, Outcome, returned}
use binance_tss_demo.Coordinator.Initiate.{ready_msg, initiate}
use binance_tss_demo.Coordinator.Await.{closed, watch_execution}
use binance_tss_demo.Coordinator.Execute.{Coordinator, Round, Script, execute, both}
use binance_tss_demo.Storage.{Disk, Json, IsJson, store_text}
use binance_tss_demo.Keyshare.Ecdsa.{EcdsaKeyshare, store_keyshare, get_keyshare}
use binance_tss_demo.Ecdsa.Signing.{Signing, signing_process}
use binance_tss_demo.Ecdsa.Keygen.{Keygen, generated, process_end_message}
use binance_tss_demo.Service.{
  sign_session_id, handle_keygen, SignatureData, text, new_signing, handle_sign,
}
use binance_tss_demo.Service.Once.{handle_keygen-stored}
use binance_tss_demo.Examples.World.{p2, p3, lib, rt, json, up}

-- Key shares whose key is a number, with no peers, as two numbers.
abbrev Share : Type 0
Share = EcdsaKeyshare ℕ

abbrev share_text : ℕ → ℤ → List Bytes → Result Bytes Bytes
share_text k (pos t) [] = ok (k ∷ t ∷ [])
share_text k t ps = err []

abbrev share_of : Bytes → Result Bytes Share
share_of (k ∷ t ∷ []) = ok (record { key = k; threshold = pos t; peers = [] })
share_of bs = err bs

abbrev numbers : Json Share
numbers = record { marshal = λ s. share_text s.key s.threshold s.peers; unmarshal = share_of }

share_round :
    (k : ℕ) (t : ℤ) (ps : List Bytes) (b : Bytes)
    → share_text k t ps ≡ ok b
    → share_of b ≡ ok (record { key = k; threshold = t; peers = ps })
share_round k (pos t) [] b h = rw (sym (same h)) refl
  where
    same : {x y : Bytes} → ◌≡◌ {A = Result Bytes Bytes} (ok x) (ok y) → x ≡ y
    same e = cc
share_round k (pos t) (p ∷ ps) b h = absurd (cc)
share_round k (ℤ.negsuc t) ps b h = absurd (cc)

numbers-IsJson : IsJson numbers
numbers-IsJson = record { round_trip = λ s b h. share_round s.key s.threshold s.peers b h }

abbrev fine : Disk
fine = record { open_error = none; write_error = none }

abbrev round : Round
round = record { to_initiate = ready_msg p2 ∷ []; to_await = []; to_watch = closed ∷ [] }

abbrev script : Script
script = record { first = round; again = round; answered = false; received = [] }

abbrev leader : Coordinator
leader = record { host_id = p3; pending = [] }

abbrev protocol : Bool → Bytes → Failure
protocol coordinator params = none

abbrev generator : Keygen
generator = record { session_id = codes "keygen"; peerstore = up; peers = []; threshold = 1 }

generated_test : (process_end_message numbers fine generator (generated 7) none).1 ≡ none
unfolding process_end_message store_keyshare store_text
generated_test = refl

handle_keygen-stored_example :
    handle_keygen lib rt protocol up 1
      (get_keyshare numbers (process_end_message numbers fine generator (generated 7) none).0)
      script
      leader
    ≡ (leader, [], returned none)
handle_keygen-stored_example =
    handle_keygen-stored numbers fine generator 7 none lib rt protocol up 1 script leader
      numbers-IsJson refl generated_test

abbrev sig : SignatureData
sig = record { signature = 171 ∷ 2 ∷ []; signature_recovery = 0 ∷ [] }

abbrev party : Bytes → Signing → Failure
party message s = none

abbrev signing : Signing
signing = record {
  host_id = p3;
  session_id = codes "sid-sign-0a";
  key_peers = up;
  threshold = 1;
  peers = up;
  coordinator = false;
}

abbrev ran : Coordinator × Log × Outcome
ran = execute lib rt (signing_process lib json (party (10 ∷ [])) signing) [] script leader

-- The signature and its recovery, as text.
handle_sign_test :
    handle_sign lib rt json party (ok (up, 1)) script (some (some sig)) (codes "0a") leader
    ≡ (ran.0, ran.1, text (codes "ab0200"))
unfolding handle_sign execute signing_process static_coordinator sort_peers_for_session sort hash
    initiate watch_execution both is_participant new_signing sign_session_id decode_string
    encode_to_string
handle_sign_test = refl

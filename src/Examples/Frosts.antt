-- ===== src/Examples/Frosts.antt =====
-- The FROST processes in the small world.
use mathlib.Core.List.Perm
use binance_tss_demo.Prelude.{
  ◌≡◌, refl, true, false, Bytes, List, [], ◌∷◌, ◌++◌, none, some, Option, Result, ok, codes, pos,
  if◌then◌else◌, contains, bytes_Comparable, inl, inr, arith,
}
use binance_tss_demo.Prelude.Maps.{lookup}
use binance_tss_demo.Peers.{PeerId, PeerLib}
use binance_tss_demo.Process.{Error, Failure}
use binance_tss_demo.Coordinator.Effects.{returned, IsIn, runs}
use binance_tss_demo.Keyshare.Frost.{FrostKeyshare}
use binance_tss_demo.Frost.Messages.{Answer, InEvent, process_inbound_messages}
use binance_tss_demo.Frost.Messages.Routed.{Arrival, arrivals, Outgoing, IsDecoded}
use binance_tss_demo.Frost.Signing.{ready, start_params, run_until_party}
use binance_tss_demo.Frost.Signing.Subset.{as_ecdsa, signing-ecdsa}
use binance_tss_demo.Ecdsa
use binance_tss_demo.Frost
use binance_tss_demo.Frost.Resharing.{prepare, prepared, party_ids}
use binance_tss_demo.Frost.Resharing.Shares.{or_else, old_key, prepare-shares}
use binance_tss_demo.Examples.World.{p1, p2, p3, sid, rt, lib, json, up, mixed}
use binance_tss_demo.Examples.Texts.{bytes_curve, params_text, params_text-IsParamsJson}
use binance_tss_demo.Frost.Keygen.{Keygen, KeygenInput, new_keygen, keygen_process}
use binance_tss_demo.Message.{WrappedMessage, tss_key_sign_msg}
use binance_tss_demo.Coordinator.Initiate.{
  InitiateEvent, ready_msg, initiate, initiate_loop, on_ready, start_all, add_ready,
}
use binance_tss_demo.Coordinator.Initiate.Ready.{senders}

-- A message is its bytes.
abbrev plain : Bytes → Result Error Bytes
plain b = ok b

abbrev w : WrappedMessage
w = record { message_type = tss_key_sign_msg; session_id = sid; payload = codes "a"; from = p2 }

abbrev two : List (Arrival Bytes)
two =
    record { wrapped = w; read = codes "a"; accepted = false }
    ∷ record { wrapped = record w { payload = codes "b" }; read = codes "b"; accepted = true }
    ∷ []

abbrev later : List InEvent
later = InEvent.message w Answer.accepts ∷ InEvent.done ∷ []

inbound_test :
    process_inbound_messages plain (arrivals two ++ later)
    ≡ (codes "b" ∷ codes "a" ∷ [], returned none)
unfolding process_inbound_messages
inbound_test = refl

-- Peers whose text form is not empty.
abbrev decode_text : Bytes → Option PeerId
decode_text [] = none
decode_text (b ∷ bs) = some bs

abbrev texts : PeerLib
texts = record { pretty = λ p. 1 ∷ p; decode = decode_text; keccak256 = λ b. b }

texts-IsDecoded : IsDecoded texts
texts-IsDecoded = record { not_empty = λ p e. absurd (cc); round_trip = λ p. refl }

abbrev outs : List Outgoing
outs =
    record { payload = codes "a"; destination = some p2 }
    ∷ record { payload = codes "b"; destination = none }
    ∷ []

abbrev key : FrostKeyshare bytes_curve
key = record {
  key = record {
    id = p1;
    threshold = pos 1;
    private_share = 7;
    public_key = codes "k";
    chain_key = [];
    verification_shares = (p1, 9) ∷ (p2, 8) ∷ [];
  };
  threshold = pos 1;
  peers = up;
}

abbrev signer : Frost.Signing.Signing bytes_curve
signer = record {
  host_id = p1;
  session_id = sid;
  id = pos 3;
  msg = codes "m";
  key = key;
  peers = up;
  coordinator = false;
}

signing-ecdsa_example :
    (ready signer mixed [] ≡ Ecdsa.Signing.ready (as_ecdsa signer 1) mixed [])
    × (start_params lib json signer mixed
        ≡ Ecdsa.Signing.start_params lib json (as_ecdsa signer 1) mixed)
    × ((run_until_party lib json signer false p3).1
        ≡ (Ecdsa.Signing.run_until_party lib json (as_ecdsa signer 1) false p3).1)
signing-ecdsa_example = signing-ecdsa lib json signer 1 refl mixed [] false p3

-- The coordinator has shares of two parties, and a new node none.
abbrev leader : Frost.Resharing.Resharing bytes_curve
leader = record {
  host_id = p1;
  session_id = sid;
  peerstore = up;
  peers = up;
  key = key;
  new_threshold = pos 1;
}

abbrev newcomer : Frost.Resharing.Resharing bytes_curve
newcomer = record leader {
  host_id = p3;
  key = record key { key = record key.key { public_key = []; verification_shares = [] } };
}

prepare-shares_example :
    (s : Frost.Resharing.Resharing bytes_curve) × (ids : List Bytes) × (prepare lib
        (λ set. set)
        params_text
        newcomer
        (Frost.Resharing.start_params params_text leader up)
      ≡ prepared s ids)
    × (s.key.key.public_key ≡ (old_key newcomer leader).public_key)
    × ((id : Bytes) → contains ids id ≡ contains (p3 ∷ up) id)
    × ((id : Bytes)
        → lookup id s.key.key.verification_shares
          ≡ or_else
              (lookup id (old_key newcomer leader).verification_shares)
              (if contains (p3 ∷ up) id then some 0 else none))
prepare-shares_example =
    prepare-shares lib (λ set. set) params_text leader newcomer up params_text-IsParamsJson
      (λ set. Perm.refl set)

abbrev generator : Keygen
generator = new_keygen sid (pos 1) p1 up

abbrev protocol : KeygenInput → Failure
protocol input = none

abbrev events : List InitiateEvent
events = ready_msg p3 ∷ ready_msg p2 ∷ []

all_known :
    (p : PeerId) → contains (p1 ∷ senders events) p ≡ true → contains generator.peerstore p ≡ true
unfolding new_keygen
all_known p h = ground arith

runs_once :
    IsIn
      (runs true [])
      (initiate rt (keygen_process lib (λ set. set) protocol generator) [] [] p1 events).0
unfolding initiate initiate_loop on_ready start_all add_ready keygen_process new_keygen
    Frost.Keygen.ready
runs_once = inr (inr (inr (inl refl)))

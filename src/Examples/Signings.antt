-- ===== src/Examples/Signings.antt =====
-- Signing subsets, and the monitor of a signing.
use Prim.Native.Nat.{min}
use mathlib.Core.List.Perm
use binance_tss_demo.Prelude.{
  ok, map, List, Bytes, codes, ◌≡◌, ◌≤◌, refl, true, false, [], ◌∷◌, contains, bytes_Comparable,
  none, some, length, if◌then◌else◌,
}
use binance_tss_demo.Peers.{PeerId}
use binance_tss_demo.Process.{subset_error, communication_error, other, Failure}
use binance_tss_demo.Coordinator.Effects.{returned}
use binance_tss_demo.Ecdsa.Monitor.{MonitorEvent, EndEvent, monitor_signing, process_end_message}
use binance_tss_demo.Ecdsa.Monitor.Stuck.{IsStuck, monitor_signing-IsStuck}
use binance_tss_demo.Sort.{sort}
use binance_tss_demo.Session.{hash, sort_peers_for_session}
use binance_tss_demo.Session.Order.{session_key}
use binance_tss_demo.Ecdsa.Signing.{
  Signing, ready_participants, peer_subset, start_params, signing_process,
}
use binance_tss_demo.Ecdsa.Signing.Subset.{peer_subset-selects, peer_subset-agree}
use binance_tss_demo.Ecdsa.Parties.{PartyLib, TssParameters, parties_from_peers}
use binance_tss_demo.Ecdsa.Parties.Own.{IsPartyLib}
use binance_tss_demo.Ecdsa.Signing.Running.{signing_party, signing_process-parameters}
use binance_tss_demo.Examples.World.{p1, p2, p3, sid, lib, lib-IsPeerLib, json, up, mixed, up-mixed}
use binance_tss_demo.Examples.Elections.{up-Apart}

abbrev signer : Signing
signer = record {
  host_id = p1;
  session_id = sid;
  key_peers = up;
  threshold = 1;
  peers = up;
  coordinator = false;
}

subset_test : peer_subset lib json signer mixed ≡ p3 ∷ p2 ∷ []
unfolding peer_subset sort_peers_for_session sort hash
subset_test = refl

peer_subset-selects_example :
    (length (peer_subset lib json signer mixed) ≡ min 2 (length (ready_participants signer mixed)))
    × ((p : PeerId)
        → contains (peer_subset lib json signer mixed) p ≡ true
        → (contains mixed p ≡ true) × (contains up p ≡ true))
    × ((p q : PeerId)
        → contains (peer_subset lib json signer mixed) p ≡ true
        → contains (ready_participants signer mixed) q ≡ true
        → contains (peer_subset lib json signer mixed) q ≡ false
        → session_key lib sid q ≤ session_key lib sid p)
peer_subset-selects_example = peer_subset-selects lib json signer mixed

peer_subset-agree_example : peer_subset lib json signer up ≡ peer_subset lib json signer mixed
unfolding ready_participants
peer_subset-agree_example = peer_subset-agree lib json signer up mixed up-Apart up-mixed

-- Parties by their ids, which are left in the order that they come in.
abbrev tss : PartyLib
tss = record {
  new_party_id = λ id moniker key. record { id = id; index = 0 };
  sort_party_ids = λ ps. ps;
}

tss-IsPartyLib : IsPartyLib tss
tss-IsPartyLib = record {
  new-id = λ id moniker key. refl;
  sort-ids = λ ps. Perm.refl (map (λ p. p.id) ps);
}

-- The protocol fails with the number of its parties.
abbrev protocol : TssParameters → Failure
protocol parameters = some (other (parameters.party_count ∷ []))

abbrev other_signer : Signing
other_signer = record signer { host_id = p2 }

read_back_test :
    json.unmarshal (json.marshal (peer_subset lib json signer mixed))
    ≡ ok (peer_subset lib json signer mixed)
unfolding peer_subset sort_peers_for_session sort hash
read_back_test = refl

signing_process-parameters_example :
    (signing_process lib json (signing_party lib tss protocol) other_signer).run false
      (start_params lib json signer mixed)
    ≡ (if contains (peer_subset lib json signer mixed) p2
        then protocol (record {
          parties = parties_from_peers lib tss (peer_subset lib json signer mixed);
          own = some p2;
          party_count = length (peer_subset lib json signer mixed);
          threshold = 1;
        })
        else some (subset_error p2))
signing_process-parameters_example =
    signing_process-parameters lib tss json protocol signer other_signer mixed false lib-IsPeerLib
      tss-IsPartyLib read_back_test

-- Party b is missing at two ticks in a row.
abbrev missing : List Bytes
missing = codes "b" ∷ []

abbrev ticks : List MonitorEvent
ticks = MonitorEvent.tick [] missing ∷ MonitorEvent.tick missing missing ∷ []

monitor_test : monitor_signing ticks ≡ returned (some (communication_error []))
unfolding monitor_signing
monitor_test = refl

end_test :
    process_end_message {Signature = Bytes} true (EndEvent.signed []) ≡ (some (some []), none)
unfolding process_end_message
end_test = refl

monitor_signing-IsStuck_example : IsStuck ticks
monitor_signing-IsStuck_example =
    monitor_signing-IsStuck ticks (communication_error []) monitor_test

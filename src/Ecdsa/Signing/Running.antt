-- ===== src/Ecdsa/Signing/Running.antt =====
-- tss_util/tss/ecdsa/signing/signing.go: what Run gives the protocol.
use binance_tss_demo.Prelude.{
  ◌≡◌, refl, ap, ◌∙◌, Bool, true, false, List, some, none, ok, length, contains, bytes_Comparable,
  if◌then◌else◌,
}
use binance_tss_demo.Peers.{PeerId, PeerLib, IsPeerLib}
use binance_tss_demo.Process.{Error, Failure, subset_error}
use binance_tss_demo.Ecdsa.Parties.{PartyLib, TssParameters, tss_parameters, parties_from_peers}
use binance_tss_demo.Ecdsa.Parties.Own.{IsPartyLib, tss_parameters-own}
use binance_tss_demo.Ecdsa.Signing.{
  Signing, PeersJson, peer_subset, start_params, run, signing_process,
}
use binance_tss_demo.Ecdsa.Signing.Subset.{run_until_party-subset}

-- What `Run` returns once the peers are those of the start parameters: `protocol` is what the calls of
-- tss-lib with the parameters and the pool return, the first error if there is one.
unfoldable pub signing_party : PeerLib → PartyLib → (TssParameters → Failure) → Signing → Failure
unfolding tss_parameters
signing_party lib tss protocol s = protocol (tss_parameters lib tss s.host_id s.peers s.threshold)

after_start : (Signing → Failure) → Signing × Failure → Failure
after_start party r = elim r.1 [ some e ↦ some e | none ↦ party r.0 ]

after_start-if :
    (party : Signing → Failure) (b : Bool) (u v : Signing) (e : Error) (result : Failure)
    → (b ≡ true → party u ≡ result)
    → after_start party (if b then (u, none) else (v, some e)) ≡ (if b then result else some e)
unfolding after_start
after_start-if party true u v e result h = h refl
after_start-if party false u v e result h = refl

-- Of the nodes that get the start parameters of a coordinator, exactly those in the signing subset run
-- the protocol, each with its own party among one party for each peer of the subset, and with its own
-- threshold; any other returns the error that says so, when the list of peers is read back as it was
-- written, text forms are one to one, and tss-lib makes and sorts parties with the ids that it is given.
pub signing_process-parameters :
    (lib : PeerLib) (tss : PartyLib) (json : PeersJson) (protocol : TssParameters → Failure)
    (s t : Signing) (ready_peers : List PeerId) (coordinator : Bool)
    → IsPeerLib lib
    → IsPartyLib tss
    → json.unmarshal (json.marshal (peer_subset lib json s ready_peers))
      ≡ ok (peer_subset lib json s ready_peers)
    → (signing_process lib json (signing_party lib tss protocol) t).run coordinator
        (start_params lib json s ready_peers)
      ≡ (if contains (peer_subset lib json s ready_peers) t.host_id
          then protocol (record {
            parties = parties_from_peers lib tss (peer_subset lib json s ready_peers);
            own = some (lib.pretty t.host_id);
            party_count = length (peer_subset lib json s ready_peers);
            threshold = t.threshold;
          })
          else some (subset_error t.host_id))
unfolding signing_process signing_party run after_start
signing_process-parameters lib tss json protocol s t ready_peers coordinator good parts round =
    let subset = peer_subset lib json s ready_peers in
    ap (after_start (signing_party lib tss protocol))
      (run_until_party-subset lib json s good t ready_peers coordinator round)
    ∙ after_start-if (signing_party lib tss protocol) (contains subset t.host_id) _ _ _ _
        (λ e. ap protocol (tss_parameters-own lib tss good parts t.host_id subset t.threshold e))

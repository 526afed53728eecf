-- ===== src/Ecdsa/Parties/Own.antt =====
-- The party of a node among those that the protocol gets.
use mathlib.Core.Path.{ap₂}
use binance_tss_demo.Prelude.{
  none, ℕ, ◌≡◌, refl, ap, ◌∙◌, sym, true, Bytes, List, [], ◌∷◌, some, map, length, length-map, Perm,
  length-perm, contains, contains-perm, bytes_Comparable, arith, if◌then◌else◌,
}
use binance_tss_demo.Prelude.Maps.{lookup}
use binance_tss_demo.Peers.{PeerId, PeerLib, IsPeerLib}
use binance_tss_demo.Ecdsa.Messages.{populate_party_store}
use binance_tss_demo.Ecdsa.Messages.Inbound.{lookup-populate_party_store}
use binance_tss_demo.Ecdsa.Parties.{
  PartyId, PartyLib, create_party_id, parties_from_peers, tss_parameters,
}

-- A party has the id that it is made with, and sorting keeps the ids, in some order.
pub record IsPartyLib (tss : PartyLib) : Type 0 where
  pub new-id : (id moniker : Bytes) (key : ℕ) → (tss.new_party_id id moniker key).id ≡ id
  pub sort-ids :
      (ps : List PartyId) → Perm (map (λ p. p.id) (tss.sort_party_ids ps)) (map (λ p. p.id) ps)

module _ (lib : PeerLib) (tss : PartyLib) (good : IsPeerLib lib) (parts : IsPartyLib tss) where
  created : List PeerId → List PartyId
  created peers = map (λ p. create_party_id tss (lib.pretty p)) peers

  created-ids : (peers : List PeerId) → map (λ p. p.id) (created peers) ≡ map lib.pretty peers
  unfolding created create_party_id
  created-ids [] = refl
  created-ids (p ∷ ps) = rw (parts.new-id (lib.pretty p) (lib.pretty p) _, created-ids ps) refl

  contains-pretty :
      (p : PeerId) (ps : List PeerId) → contains (map lib.pretty ps) (lib.pretty p) ≡ contains ps p
  contains-pretty p [] = refl
  contains-pretty p (q ∷ qs) = ground (
    arith,
    contains-pretty p qs,
    bytes_Comparable.equal_iff p q,
    bytes_Comparable.equal_iff (lib.pretty p) (lib.pretty q),
    good.pretty_injective p q,
  )

  parties-ids :
      (peers : List PeerId)
      → Perm (map (λ p. p.id) (parties_from_peers lib tss peers)) (map lib.pretty peers)
  unfolding parties_from_peers created
  parties-ids peers = rw (sym (created-ids peers)) (parts.sort-ids (created peers))

  -- With the host among the peers, its party is found, and there is one party for each peer.
  pub tss_parameters-own :
      (host_id : PeerId) (peers : List PeerId) (threshold : ℕ)
      → contains peers host_id ≡ true
      → tss_parameters lib tss host_id peers threshold ≡ record {
        parties = parties_from_peers lib tss peers;
        own = some (lib.pretty host_id);
        party_count = length peers;
        threshold = threshold;
      }
  unfolding tss_parameters
  tss_parameters-own host_id peers threshold h =
      ap₂
        (λ own count. record {
          parties = parties_from_peers lib tss peers;
          own = own;
          party_count = count;
          threshold = threshold;
        })
        found count
    where
      found :
          lookup
            (lib.pretty host_id)
            (populate_party_store [] (map (λ p. p.id) (parties_from_peers lib tss peers)))
          ≡ some (lib.pretty host_id)
      found =
          lookup-populate_party_store [] (map (λ p. p.id) (parties_from_peers lib tss peers))
            (lib.pretty host_id)
          ∙ ap (λ b. if b then some (lib.pretty host_id) else none)
              (contains-perm (lib.pretty host_id) (parties-ids peers)
                ∙ contains-pretty host_id peers
                ∙ h)

      count : length (parties_from_peers lib tss peers) ≡ length peers
      count =
          sym (length-map (λ p. p.id) (parties_from_peers lib tss peers))
          ∙ length-perm (parties-ids peers)
          ∙ length-map lib.pretty peers

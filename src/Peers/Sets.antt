-- ===== src/Peers/Sets.antt =====
-- The peer lists as sets.
use binance_tss_demo.Prelude.{
  not, ◌&&◌, List, [], ◌∷◌, ◌≡◌, ap, refl, ok, map, All, contains, bytes_Comparable, arith,
  contains-keep, some,
}
use binance_tss_demo.Peers.{
  PeerId, PeerLib, IsPeerLib, is_participant, exclude_peers, peers_intersection, peers_from_ids,
}

-- A participant is a member of the list, although the code compares the text forms.
pub is_participant-contains :
    (lib : PeerLib) (good : IsPeerLib lib) (peer : PeerId) (peers : List PeerId)
    → is_participant lib peer peers ≡ contains peers peer
unfolding is_participant
is_participant-contains lib good peer [] = refl
is_participant-contains lib good peer (p ∷ ps) = ground (
  arith,
  is_participant-contains lib good peer ps,
  good.pretty_injective p peer,
  ap lib.pretty,
  bytes_Comparable.equal_iff p peer,
  bytes_Comparable.equal_iff peer p,
  bytes_Comparable.equal_iff (lib.pretty p) (lib.pretty peer),
)

pub contains-exclude_peers :
    (peers excluded : List PeerId) (p : PeerId)
    → contains (exclude_peers peers excluded) p ≡ (contains peers p && not (contains excluded p))
unfolding exclude_peers
contains-exclude_peers peers excluded p = contains-keep (λ q. not (contains excluded q)) peers p

pub contains-peers_intersection :
    (old_peers new_peers : List PeerId) (p : PeerId)
    → contains (peers_intersection old_peers new_peers) p
      ≡ (contains old_peers p && contains new_peers p)
unfolding peers_intersection
contains-peers_intersection old_peers new_peers p = contains-keep (contains new_peers) old_peers p

-- Ids that are text forms decode to their peers, in order.
pub peers_from_ids-pretty :
    (lib : PeerLib) (peers : List PeerId)
    → All (λ p. lib.decode (lib.pretty p) ≡ some p) peers
    → peers_from_ids lib (map lib.pretty peers) ≡ ok peers
unfolding peers_from_ids
peers_from_ids-pretty lib [] h = refl
peers_from_ids-pretty lib (p ∷ ps) h = ground (arith, peers_from_ids-pretty lib ps h.1)

-- ===== src/Session/Order.antt =====
-- The session order: the same for every node, whatever order its peer list has.
use binance_tss_demo.Prelude.{
  ℕ, ◌≡◌, refl, ap, ◌∙◌, Bytes, List, [], ◌∷◌, map, Perm, bytes_Comparable,
}
use binance_tss_demo.Peers.{PeerId, PeerLib}
use binance_tss_demo.Sort.{sort}
use binance_tss_demo.Sort.Mapped.{sort-map}
use binance_tss_demo.Sort.Order.{above, IsSorted, sort-IsSorted, sort-perm}
use binance_tss_demo.Sort.Unique.{Apart, sort-agree}
use binance_tss_demo.Session.{PeerMsg, hash, less, sort_peers_for_session, get_peer_ids}

-- The number by which a peer is ranked in a session.
abbrev pub session_key : PeerLib → Bytes → PeerId → ℕ
session_key lib session_id p = hash lib (record { id = p; session_id = session_id })

abbrev pub in_session : Bytes → PeerId → PeerMsg
in_session session_id p = record { id = p; session_id = session_id }

-- The peers, the greatest key first.
abbrev pub session_order : PeerLib → Bytes → List PeerId → List PeerId
session_order lib session_id peers = sort (above (session_key lib session_id)) peers

pub PeerId-set : IsSet PeerId
PeerId-set = hlevel

module _ (lib : PeerLib) (session_id : Bytes) where
  pub sort_peers_for_session-eq :
      (xs : List PeerId)
      → sort_peers_for_session lib xs session_id
        ≡ map (in_session session_id) (session_order lib session_id xs)
  unfolding sort_peers_for_session less
  sort_peers_for_session-eq xs = sort-map (in_session session_id) (less lib) xs

  pub session_order-agree :
      (xs ys : List PeerId)
      → Apart (session_key lib session_id) xs
      → Perm xs ys
      → session_order lib session_id xs ≡ session_order lib session_id ys
  session_order-agree xs ys h p = sort-agree (session_key lib session_id) PeerId-set xs ys h p

  pub session_order-IsSorted :
      (xs : List PeerId) → IsSorted (session_key lib session_id) (session_order lib session_id xs)
  session_order-IsSorted xs = sort-IsSorted (session_key lib session_id) xs

  pub session_order-perm : (xs : List PeerId) → Perm (session_order lib session_id xs) xs
  session_order-perm xs = sort-perm (above (session_key lib session_id)) xs

  get_peer_ids-map : (xs : List PeerId) → get_peer_ids (map (in_session session_id) xs) ≡ xs
  unfolding get_peer_ids
  get_peer_ids-map [] = refl
  get_peer_ids-map (x ∷ xs) = ap (◌∷◌ x) (get_peer_ids-map xs)

  pub get_peer_ids-sort :
      (xs : List PeerId)
      → get_peer_ids (sort_peers_for_session lib xs session_id) ≡ session_order lib session_id xs
  get_peer_ids-sort xs =
      ap get_peer_ids (sort_peers_for_session-eq xs)
      ∙ get_peer_ids-map (session_order lib session_id xs)

  -- Nodes that know the same peers sort them alike.
  pub sort_peers_for_session-agree :
      (xs ys : List PeerId)
      → Apart (session_key lib session_id) xs
      → Perm xs ys
      → sort_peers_for_session lib xs session_id ≡ sort_peers_for_session lib ys session_id
  sort_peers_for_session-agree xs ys h p =
      rw (sort_peers_for_session-eq xs, sort_peers_for_session-eq ys)
        (ap (map (in_session session_id)) (session_order-agree xs ys h p))

-- ===== src/Elector/Bully/Agreement.antt =====
-- Nodes that hear the same claims agree, and what a claim from outside the session does.
use binance_tss_demo.Prelude.{
  ℕ, ◌≤◌, ◌≡◌, Bool, true, false, List, ◌∷◌, contains, contains-perm, bytes_Comparable, arith,
  Bytes, ◌==◌, if◌then◌else◌, All, ap, sym, ◌∙◌, Perm,
}
use binance_tss_demo.Peers.{PeerId, PeerLib}
use binance_tss_demo.Message.{WrappedMessage}
use binance_tss_demo.Sort.Unique.{Apart}
use binance_tss_demo.Session.{PeerMsg, get_peer_ids, sort_peers_for_session}
use binance_tss_demo.Session.Order.{
  session_key, sort_peers_for_session-agree, get_peer_ids-sort, session_order-perm,
}
use binance_tss_demo.Elector.Bully.{
  Bully, new_bully, set_coordinator, is_peer_id_higher, elect, bully_coordinator,
}
use binance_tss_demo.Elector.Bully.Rank.{index_injective, index_absent, index_later, index_zero}
use binance_tss_demo.Elector.Bully.Outcome.{claims, IsAnswered, IsBest, receive_all-IsBest}
use mathlib.Core.Path.{subst}

-- A claim by a peer that is not in the session is taken if the coordinator is a peer of the session after
-- the first; if the coordinator is the first peer, or is not in the session either, the claim is taken
-- only if it is by the host itself.
pub set_coordinator-outsider :
    (bc : Bully) (first : PeerMsg) (rest : List PeerMsg) (id : PeerId)
    → bc.sorted_peers ≡ first ∷ rest
    → contains (get_peer_ids (first ∷ rest)) id ≡ false
    → (contains (get_peer_ids rest) bc.coordinator ≡ true
        → (set_coordinator bc id).coordinator ≡ id)
      × (contains (get_peer_ids rest) bc.coordinator ≡ false
          → (set_coordinator bc id).coordinator ≡ (if id == bc.host_id then id else bc.coordinator))
unfolding set_coordinator is_peer_id_higher
set_coordinator-outsider bc first rest id sorted out = (
  λ later. rw (sorted) (
      ground
        (arith, index_absent (first ∷ rest) id out, index_later first rest bc.coordinator later)),
  λ other. rw (sorted) (
      ground
        (arith, index_absent (first ∷ rest) id out, index_zero first rest bc.coordinator other)),
)

abbrev started : Bytes → PeerId → List PeerMsg → Bully
started session_id host ms = record {
  session_id = session_id;
  host_id = host;
  coordinator = host;
  sorted_peers = ms;
}

elect-started :
    (session_id : Bytes) (host : PeerId) (ms : List PeerMsg) (answered : Bool)
    → (elect (started session_id host ms) answered).0 ≡ started session_id host ms
unfolding elect set_coordinator
elect-started session_id host ms answered = ground arith

module _ (lib : PeerLib) (session_id : Bytes) where
  -- One node: the best of itself and of those that claimed.
  pub bully_coordinator-IsBest :
      (host : PeerId) (peers : List PeerId) (answered : Bool)
      (received : List (WrappedMessage × Bool))
      → All IsAnswered received
      → contains (claims received) host ≡ false
      → IsBest
          (sort_peers_for_session lib peers session_id)
          (host ∷ claims received)
          (bully_coordinator lib (new_bully session_id host) peers answered received)
  unfolding bully_coordinator new_bully
  bully_coordinator-IsBest host peers answered received h foreign =
      rw
        (
          elect-started session_id host (sort_peers_for_session lib peers session_id) answered,
          bully_coordinator,
        )
        (receive_all-IsBest (started session_id host (sort_peers_for_session lib peers session_id))
          received h foreign)

  contains-session :
      (peers : List PeerId) (p : PeerId)
      → contains (get_peer_ids (sort_peers_for_session lib peers session_id)) p ≡ contains peers p
  contains-session peers p =
      ap (λ ps. contains ps p) (get_peer_ids-sort lib session_id peers)
      ∙ contains-perm p (session_order-perm lib session_id peers)

  IsBest-unique :
      (peers ps qs : List PeerId) (c d : PeerId)
      → ((p : PeerId) → contains ps p ≡ contains qs p)
      → ((p : PeerId) → contains ps p ≡ true → contains peers p ≡ true)
      → IsBest (sort_peers_for_session lib peers session_id) ps c
      → IsBest (sort_peers_for_session lib peers session_id) qs d
      → c ≡ d
  IsBest-unique peers ps qs c d same inside best other =
      let ms = sort_peers_for_session lib peers session_id in
      let in_ps = same d ∙ other.0 in
      index_injective ms c d (contains-session peers c ∙ inside c best.0)
        (contains-session peers d ∙ inside d in_ps)
        (le_antisymm (best.1 d in_ps) (other.1 c (sym (same c) ∙ best.0)))
    where
      le_antisymm : {m n : ℕ} → m ≤ n → n ≤ m → m ≡ n
      le_antisymm h k = omega arith

  -- Two nodes with the same peers, each with its elections answered in time and with no claim of its
  -- own heard back, whose hosts and claims heard are together the same peers of the session, end with
  -- one coordinator, whatever the order in which the messages came.
  pub bully_coordinator-agree :
      (xs ys : List PeerId) (h1 h2 : PeerId) (a1 a2 : Bool) (r1 r2 : List (WrappedMessage × Bool))
      → Apart (session_key lib session_id) xs
      → Perm xs ys
      → All IsAnswered r1
      → All IsAnswered r2
      → contains (claims r1) h1 ≡ false
      → contains (claims r2) h2 ≡ false
      → ((p : PeerId) → contains (h1 ∷ claims r1) p ≡ contains (h2 ∷ claims r2) p)
      → ((p : PeerId) → contains (h1 ∷ claims r1) p ≡ true → contains xs p ≡ true)
      → bully_coordinator lib (new_bully session_id h1) xs a1 r1
        ≡ bully_coordinator lib (new_bully session_id h2) ys a2 r2
  bully_coordinator-agree xs ys h1 h2 a1 a2 r1 r2 apart p q1 q2 f1 f2 same inside =
      let c2 = bully_coordinator lib (new_bully session_id h2) ys a2 r2 in
      IsBest-unique xs (h1 ∷ claims r1) (h2 ∷ claims r2) _ c2 same inside
        (bully_coordinator-IsBest h1 xs a1 r1 q1 f1)
        (subst (λ ms. IsBest ms (h2 ∷ claims r2) c2)
          (sym (sort_peers_for_session-agree lib session_id xs ys apart p))
          (bully_coordinator-IsBest h2 ys a2 r2 q2 f2))

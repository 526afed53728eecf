-- ===== src/Elector/Bully/Rank.antt =====
-- `isPeerIDHigher` among the peers of a session, and what it says of peers that are not.
use binance_tss_demo.Prelude.{
  ℕ, suc, ◌-◌, ◌≤◌, ◌≡◌, ◌≢◌, ◌⊎◌, inl, inr, refl, ap, true, false, List, [], ◌∷◌, contains,
  bytes_Comparable, arith, some, get_elem?, ◌==◌, if◌then◌else◌, Bool-cases,
}
use binance_tss_demo.Peers.{PeerId}
use binance_tss_demo.Session.{PeerMsg, get_peer_ids}
use binance_tss_demo.Elector.Bully.{Bully, index_from, index, is_peer_id_higher}

index_from_absent :
    (i found : ℕ) (p : PeerId) (ms : List PeerMsg)
    → contains (get_peer_ids ms) p ≡ false
    → index_from i found p ms ≡ found
unfolding index_from get_peer_ids
index_from_absent i found p [] h = refl
index_from_absent i found p (m ∷ ms) h = ground (arith, index_from_absent (suc i) found p ms)

index_from_present :
    (i found : ℕ) (p : PeerId) (ms : List PeerMsg)
    → contains (get_peer_ids ms) p ≡ true
    → (i ≤ index_from i found p ms)
      × (get_elem? (get_peer_ids ms) (index_from i found p ms - i) ≡ some p)
unfolding index_from get_peer_ids
index_from_present i found p [] h = absurd (cc)
index_from_present i found p (m ∷ ms) h = elim (Bool-cases (contains (get_peer_ids ms) p)) [
  | inl later ↦ deeper (index_from_present (suc i) (if p == m.id then i else found) p ms later)
  | inr last ↦ ground (
    arith,
    index_from_absent (suc i) (if p == m.id then i else found) p ms last,
    bytes_Comparable.equal_iff p m.id,
  )
]
  where
    deeper :
        (suc i ≤ index_from (suc i) (if p == m.id then i else found) p ms)
          × (get_elem?
                (get_peer_ids ms)
                (index_from (suc i) (if p == m.id then i else found) p ms - suc i)
              ≡ some p)
        → (i ≤ index_from (suc i) (if p == m.id then i else found) p ms)
          × (get_elem?
                (m.id ∷ get_peer_ids ms)
                (index_from (suc i) (if p == m.id then i else found) p ms - i)
              ≡ some p)
    deeper (a, b) = ground arith

-- A peer of the session stands at its index.
pub index-get_elem? :
    (ms : List PeerMsg) (p : PeerId)
    → contains (get_peer_ids ms) p ≡ true
    → get_elem? (get_peer_ids ms) (index ms p) ≡ some p
unfolding index
index-get_elem? ms p h = ground (arith, index_from_present 0 0 p ms h)

-- A peer that is not in the session has the index of the first one.
pub index_absent :
    (ms : List PeerMsg) (p : PeerId) → contains (get_peer_ids ms) p ≡ false → index ms p ≡ 0
unfolding index
index_absent ms p h = index_from_absent 0 0 p ms h

pub index_injective :
    (ms : List PeerMsg) (p q : PeerId)
    → contains (get_peer_ids ms) p ≡ true
    → contains (get_peer_ids ms) q ≡ true
    → index ms p ≡ index ms q
    → p ≡ q
index_injective ms p q hp hq e =
    cc (index-get_elem? ms p hp, index-get_elem? ms q hq, ap (get_elem? (get_peer_ids ms)) e)

-- Of two different peers of the session exactly one is the higher.
pub is_peer_id_higher-total :
    (bc : Bully) (p q : PeerId)
    → contains (get_peer_ids bc.sorted_peers) p ≡ true
    → contains (get_peer_ids bc.sorted_peers) q ≡ true
    → p ≢ q
    → ((is_peer_id_higher bc p q ≡ true) × (is_peer_id_higher bc q p ≡ false))
      ⊎ ((is_peer_id_higher bc p q ≡ false) × (is_peer_id_higher bc q p ≡ true))
unfolding is_peer_id_higher
is_peer_id_higher-total bc p q hp hq n = ground (
  arith,
  λ (e : index bc.sorted_peers p ≡ index bc.sorted_peers q).
      n (index_injective bc.sorted_peers p q hp hq e),
)

-- A peer of the session after the first has an index that is not 0.
pub index_later :
    (first : PeerMsg) (rest : List PeerMsg) (p : PeerId)
    → contains (get_peer_ids rest) p ≡ true
    → 1 ≤ index (first ∷ rest) p
unfolding index index_from
index_later first rest p h = (index_from_present 1 (if p == first.id then 0 else 0) p rest h).0

-- Any other peer has the index 0.
pub index_zero :
    (first : PeerMsg) (rest : List PeerMsg) (p : PeerId)
    → contains (get_peer_ids rest) p ≡ false
    → index (first ∷ rest) p ≡ 0
unfolding index index_from
index_zero first rest p h =
    ground (arith, index_from_absent 1 (if p == first.id then 0 else 0) p rest h)

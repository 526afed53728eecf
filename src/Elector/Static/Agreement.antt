-- ===== src/Elector/Static/Agreement.antt =====
-- The static choice: every node makes the same, and it is the peer of the greatest hash.
use binance_tss_demo.Prelude.{
  ℕ, ◌≤◌, ◌≡◌, ◌≢◌, refl, ap, Bytes, List, [], ◌∷◌, map, Perm, All, contains, contains-perm,
  length-perm, length, bytes_Comparable, true, arith, eq_refl, ◌∙◌, sym,
}
use binance_tss_demo.Peers.{PeerId, PeerLib}
use binance_tss_demo.Sort.Order.{IsSorted}
use binance_tss_demo.Sort.Unique.{Apart}
use binance_tss_demo.Session.Order.{
  session_key, in_session, session_order, sort_peers_for_session-eq, session_order-agree,
  session_order-IsSorted, session_order-perm,
}
use binance_tss_demo.Elector.Static.{first_id, static_coordinator}

first_or_none : List PeerId → PeerId
first_or_none [] = []
first_or_none (p ∷ ps) = p

All-contains :
    (key : PeerId → ℕ) (n : ℕ) (ps : List PeerId) (p : PeerId)
    → All (λ q. key q ≤ n) ps
    → contains ps p ≡ true
    → key p ≤ n
All-contains key n [] p a c = absurd (cc)
All-contains key n (q ∷ qs) p a c =
    ground (arith, All-contains key n qs p a.1, bytes_Comparable.equal_iff p q)

module _ (lib : PeerLib) (session_id : Bytes) where
  first_id-map : (ps : List PeerId) → first_id (map (in_session session_id) ps) ≡ first_or_none ps
  unfolding first_id first_or_none
  first_id-map [] = refl
  first_id-map (p ∷ ps) = refl

  coordinator-first :
      (xs : List PeerId)
      → static_coordinator lib session_id xs ≡ first_or_none (session_order lib session_id xs)
  unfolding static_coordinator
  coordinator-first xs =
      ap first_id (sort_peers_for_session-eq lib session_id xs)
      ∙ first_id-map (session_order lib session_id xs)

  -- Nodes whose peer lists hold the same peers, in whatever order, name the same coordinator,
  -- when peers of one hash are one peer.
  pub static_coordinator-agree :
      (xs ys : List PeerId)
      → Apart (session_key lib session_id) xs
      → Perm xs ys
      → static_coordinator lib session_id xs ≡ static_coordinator lib session_id ys
  static_coordinator-agree xs ys h p =
      rw (coordinator-first xs, coordinator-first ys)
        (ap first_or_none (session_order-agree lib session_id xs ys h p))

  first_highest :
      (key : PeerId → ℕ) (ps : List PeerId)
      → IsSorted key ps
      → ps ≢ []
      → (contains ps (first_or_none ps) ≡ true)
        × ((p : PeerId) → contains ps p ≡ true → key p ≤ key (first_or_none ps))
  unfolding first_or_none
  first_highest key [] s n = absurd (n refl)
  first_highest key (q ∷ qs) s n = (
    ground (arith, eq_refl q),
    λ p c. ground (arith, bytes_Comparable.equal_iff p q, All-contains key (key q) qs p s.0),
  )

  -- The coordinator of a non-empty list is one of its peers, and no peer has a greater hash.
  pub static_coordinator-highest :
      (xs : List PeerId)
      → xs ≢ []
      → (contains xs (static_coordinator lib session_id xs) ≡ true)
        × ((p : PeerId)
            → contains xs p ≡ true
            → session_key lib session_id p
              ≤ session_key lib session_id (static_coordinator lib session_id xs))
  static_coordinator-highest xs n =
      let key = session_key lib session_id in
      let same = λ (p : PeerId). contains-perm p (session_order-perm lib session_id xs) in
      let best =
        first_highest key (session_order lib session_id xs)
          (session_order-IsSorted lib session_id xs)
          (λ e. n (
            empty_of_length xs
              (sym (length-perm (session_order-perm lib session_id xs)) ∙ ap length e))) in
      rw (coordinator-first xs) (
        sym (same (first_or_none (session_order lib session_id xs))) ∙ best.0,
        λ p c. best.1 p (same p ∙ c),
      )
    where
      empty_of_length : (ys : List PeerId) → length ys ≡ 0 → ys ≡ []
      empty_of_length [] e = refl
      empty_of_length (y ∷ ys) e = absurd (omega arith)

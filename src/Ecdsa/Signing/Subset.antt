-- ===== src/Ecdsa/Signing/Subset.antt =====
-- The signing subset.
use Prim.Native.Nat.{min}
use mathlib.Core.List.{append_assoc, append-nil}
use binance_tss_demo.Prelude.{
  ℕ, zero, suc, ◌+◌, ◌≤◌, ◌≡◌, ap, ◌∙◌, sym, Bool, true, false, Bytes, List, [], ◌∷◌, ◌++◌, map,
  Perm, All, take, length, length-append, length-take, contains, contains-keep, keep-perm,
  contains-perm, length-perm, bytes_Comparable, arith, if◌then◌else◌, ok, some, none, ◌&&◌,
}
use binance_tss_demo.Peers.{PeerId, PeerLib, IsPeerLib}
use binance_tss_demo.Peers.Sets.{is_participant-contains}
use binance_tss_demo.Process.{subset_error}
use binance_tss_demo.Sort.Order.{IsSorted}
use binance_tss_demo.Sort.Unique.{Apart}
use binance_tss_demo.Session.Order.{
  session_key, session_order, in_session, sort_peers_for_session-eq, session_order-agree,
  session_order-IsSorted, session_order-perm,
}
use binance_tss_demo.Ecdsa.Signing.{
  Signing, PeersJson, ready_participants, choose, peer_subset, start_params, run_until_party,
}

choose-take :
    (size left : ℕ) (subset ps : List PeerId) (session_id : Bytes)
    → length subset + suc left ≡ size
    → choose size subset (map (in_session session_id) ps) ≡ subset ++ take (suc left) ps
unfolding choose
choose-take size left subset [] session_id h = sym (append-nil subset)
choose-take size zero subset (p ∷ ps) session_id h = ground (arith, length-append subset (p ∷ []))
choose-take size (suc left) subset (p ∷ ps) session_id h = ground (
  arith,
  length-append subset (p ∷ []),
  choose-take size left (subset ++ p ∷ []) ps session_id,
  append_assoc subset (p ∷ []) (take (suc left) ps),
)

module _ (lib : PeerLib) where
  abbrev participants_in_order : Signing → List PeerId → List PeerId
  participants_in_order s ready_peers =
      session_order lib s.session_id (ready_participants s ready_peers)

  peer_subset-take :
      (json : PeersJson) (s : Signing) (ready_peers : List PeerId)
      → peer_subset lib json s ready_peers
        ≡ take (suc s.threshold) (participants_in_order s ready_peers)
  unfolding peer_subset
  peer_subset-take json s ready_peers =
      ap (choose (s.threshold + 1) [])
        (sort_peers_for_session-eq lib s.session_id (ready_participants s ready_peers))
      ∙ choose-take (s.threshold + 1) s.threshold [] (participants_in_order s ready_peers)
          s.session_id (omega arith)

pub contains-ready_participants :
    (s : Signing) (peers : List PeerId) (p : PeerId)
    → contains (ready_participants s peers) p ≡ (contains peers p && contains s.key_peers p)
unfolding ready_participants
contains-ready_participants s peers p = contains-keep (contains s.key_peers) peers p

ready_participants-perm :
    (s : Signing) {xs ys : List PeerId}
    → Perm xs ys
    → Perm (ready_participants s xs) (ready_participants s ys)
unfolding ready_participants
ready_participants-perm s perm = keep-perm (contains s.key_peers) perm

contains-take :
    (n : ℕ) (xs : List PeerId) (p : PeerId) → contains (take n xs) p ≡ true → contains xs p ≡ true
contains-take zero xs p h = absurd (cc)
contains-take (suc n) [] p h = absurd (cc)
contains-take (suc n) (x ∷ xs) p h = ground (arith, contains-take n xs p)

below_head :
    (key : PeerId → ℕ) (n : ℕ) (xs : List PeerId) (p : PeerId)
    → All (λ q. key q ≤ n) xs
    → contains xs p ≡ true
    → key p ≤ n
below_head key n [] p a h = absurd (cc)
below_head key n (x ∷ xs) p a h =
    ground (arith, below_head key n xs p a.1, bytes_Comparable.equal_iff p x)

take_top :
    (key : PeerId → ℕ) (n : ℕ) (xs : List PeerId) (p q : PeerId)
    → IsSorted key xs
    → contains (take n xs) p ≡ true
    → contains xs q ≡ true
    → contains (take n xs) q ≡ false
    → key q ≤ key p
take_top key zero xs p q s hp hq out = absurd (cc)
take_top key (suc n) [] p q s hp hq out = absurd (cc)
take_top key (suc n) (x ∷ xs) p q s hp hq out = ground (
  arith,
  bytes_Comparable.equal_iff p x,
  bytes_Comparable.equal_iff q x,
  below_head key (key x) xs q s.0,
  take_top key n xs p q s.1,
)

module _ (lib : PeerLib) (json : PeersJson) (s : Signing) where
  -- The signing subset has as many peers as are needed, or all that are ready with a key share if
  -- they are fewer; each is ready and holds a key share; and no other such peer has a greater hash.
  pub peer_subset-selects :
      (ready_peers : List PeerId)
      → let subset = peer_subset lib json s ready_peers in
        let participants = ready_participants s ready_peers in
        let key = session_key lib s.session_id in
        (length subset ≡ min (suc s.threshold) (length participants))
        × ((p : PeerId)
            → contains subset p ≡ true
            → (contains ready_peers p ≡ true) × (contains s.key_peers p ≡ true))
        × ((p q : PeerId)
            → contains subset p ≡ true
            → contains participants q ≡ true
            → contains subset q ≡ false
            → key q ≤ key p)
  peer_subset-selects ready_peers =
      let key = session_key lib s.session_id in
      let participants = ready_participants s ready_peers in
      let order = session_order lib s.session_id participants in
      let perm = session_order-perm lib s.session_id participants in
      rw (peer_subset-take lib json s ready_peers) (
        length-take (suc s.threshold) order ∙ ap (min (suc s.threshold)) (length-perm perm),
        λ p h.
            ready_and_key ready_peers p
              (sym (contains-perm p perm) ∙ contains-take (suc s.threshold) order p h),
        λ p q hp hq out.
            take_top key (suc s.threshold) order p q
              (session_order-IsSorted lib s.session_id participants) hp (contains-perm q perm ∙ hq)
              out,
      )
    where
      ready_and_key :
          (peers : List PeerId) (p : PeerId)
          → contains (ready_participants s peers) p ≡ true
          → (contains peers p ≡ true) × (contains s.key_peers p ≡ true)
      ready_and_key peers p h = ground (arith, contains-ready_participants s peers p)

  -- Whatever the order in which the peers said that they are ready, the subset is the same, when
  -- peers of one hash are one peer.
  pub peer_subset-agree :
      (xs ys : List PeerId)
      → Apart (session_key lib s.session_id) (ready_participants s xs)
      → Perm xs ys
      → peer_subset lib json s xs ≡ peer_subset lib json s ys
  peer_subset-agree xs ys apart perm =
      peer_subset-take lib json s xs
      ∙ ap (take (suc s.threshold)) (
          session_order-agree lib s.session_id (ready_participants s xs) (ready_participants s ys)
            apart (ready_participants-perm s perm))
      ∙ sym (peer_subset-take lib json s ys)

  -- Of the nodes that get the start parameters of a coordinator, exactly those in the signing subset
  -- start a party, for that subset; any other returns the error that says so, and keeps its peers.
  pub run_until_party-subset :
      (good : IsPeerLib lib) (t : Signing) (ready_peers : List PeerId) (flag : Bool)
      → let subset = peer_subset lib json s ready_peers in
        json.unmarshal (json.marshal subset) ≡ ok subset
        → run_until_party lib json t flag (start_params lib json s ready_peers) ≡ (
            if contains subset t.host_id
            then (record t { coordinator = flag; peers = subset }, none)
            else (record t { coordinator = flag }, some (subset_error t.host_id)))
  unfolding run_until_party start_params
  run_until_party-subset good t ready_peers flag round = ground (
    arith,
    round,
    is_participant-contains lib good t.host_id (peer_subset lib json s ready_peers),
  )

-- ===== src/Ecdsa/Resharing/Accepts.antt =====
-- Which start parameters a node accepts.
use binance_tss_demo.Prelude.{
  ◌≡◌, ◌↔◌, ◌⊎◌, inl, inr, refl, ap, ◌∙◌, sym, is_positive, is_below, Bool, true, false, Bytes,
  List, [], ◌∷◌, none, ok, length, keep, nat_eq, text_less, bytes_Comparable, arith, Perm, contains,
  length-perm, Bool-cases, keep-perm,
}
use mathlib.Core.Path.{subst}
use mathlib.Core.List.Perm
use binance_tss_demo.Peers.{PeerId, peers_intersection}
use binance_tss_demo.Sort.{sort}
use binance_tss_demo.Sort.Order.{sort-perm}
use binance_tss_demo.Sort.Total.{sort-perm_agree, keep-sort}
use binance_tss_demo.Sort.Text.{text_less-IsTotal}
use binance_tss_demo.Session.Order.{PeerId-set}
use binance_tss_demo.Ecdsa.Resharing.{
  StartParams, ParamsJson, Resharing, peers_equal, start_params, sorted, sorted_params, same_subset,
  validate_start_params, unmarshall_start_params,
}

-- Start parameters are read back as they were written.
pub record IsParamsJson (json : ParamsJson) : Type 0 where
  pub round_trip : (params : StartParams) → json.unmarshal (json.marshal params) ≡ ok params

peers_equal_iff : (xs ys : List PeerId) → (peers_equal xs ys ≡ true) ↔ (xs ≡ ys)
peers_equal_iff [] [] = ground arith
peers_equal_iff [] (y ∷ ys) = ground arith
peers_equal_iff (x ∷ xs) [] = ground arith
peers_equal_iff (x ∷ xs) (y ∷ ys) =
    ground (arith, peers_equal_iff xs ys, bytes_Comparable.equal_iff x y)

-- Sorted lists are equal if the lists have the same elements, and only then.
sort_iff : (xs ys : List PeerId) → (sort text_less xs ≡ sort text_less ys) ↔ Perm xs ys
sort_iff xs ys = (
  (λ e. Perm.trans (Perm.symm (sort-perm text_less xs)) (rw (e) (sort-perm text_less ys))),
  (λ p. sort-perm_agree text_less text_less-IsTotal PeerId-set xs ys p),
)

intersection-sort :
    (key_peers peerstore : List PeerId)
    → peers_intersection (sort text_less key_peers) peerstore
      ≡ sort text_less (peers_intersection key_peers peerstore)
unfolding peers_intersection
intersection-sort key_peers peerstore =
    keep-sort text_less text_less-IsTotal (contains peerstore) key_peers

empty_list : (ps : List PeerId) → length ps ≡ 0 → ps ≡ []
empty_list [] h = refl
empty_list (p ∷ ps) h = absurd (omega arith)

-- The subset of the parameters is that of the node.
abbrev pub IsOwnSubset : Resharing → StartParams → Type 0
IsOwnSubset r params =
    (r.key_peers ≡ []) ⊎ Perm params.old_subset (peers_intersection r.key_peers r.peerstore)

equal-own :
    (r : Resharing) (params : StartParams)
    → (peers_equal
          (sort text_less params.old_subset)
          (peers_intersection (sort text_less r.key_peers) r.peerstore)
        ≡ true)
      ↔ Perm params.old_subset (peers_intersection r.key_peers r.peerstore)
equal-own r params =
    let own = peers_intersection r.key_peers r.peerstore in
    let swap = intersection-sort r.key_peers r.peerstore in
    let equal =
      peers_equal_iff (sort text_less params.old_subset)
        (peers_intersection (sort text_less r.key_peers) r.peerstore) in
    let perm = sort_iff params.old_subset own in
    ((λ h. perm.0 (equal.0 h ∙ swap)), (λ p. equal.1 (perm.1 p ∙ sym swap)))

same_subset-own :
    (r : Resharing) (params : StartParams)
    → (same_subset (sorted r) (sorted_params params) ≡ none) ↔ IsOwnSubset r params
unfolding same_subset sorted sorted_params
same_subset-own r params = (
  λ h. elim (Bool-cases (nat_eq (length r.key_peers) 0)) [
    | inl e ↦ inl (empty_list r.key_peers (ground arith))
    | inr e ↦ inr ((equal-own r params).0 (ground (arith, same_length)))
  ],
  λ own. elim own [
    | inl e ↦ ground (arith, same_length, ap length e)
    | inr p ↦ ground (arith, (equal-own r params).1 p)
  ],
)
  where
    same_length : length (sort text_less r.key_peers) ≡ length r.key_peers
    same_length = length-perm (sort-perm text_less r.key_peers)

-- A node takes start parameters exactly if the old threshold is positive and not above the size of
-- the old subset, and the node has no key share or the subset holds, in some order, the peers of its
-- key share that are in its peerstore.
pub validate-accepts :
    (r : Resharing) (params : StartParams)
    → ((validate_start_params r params).2 ≡ none) ↔ (
        (is_positive params.old_threshold ≡ true)
        × (is_below (length params.old_subset) params.old_threshold ≡ false)
        × IsOwnSubset r params)
unfolding validate_start_params
validate-accepts r params = (
  λ h. ground (arith, (same_subset-own r params).0),
  λ (p, b, own). ground (arith, (same_subset-own r params).1 own),
)

validate-params :
    (r : Resharing) (params : StartParams)
    → (validate_start_params r params).2 ≡ none
    → (validate_start_params r params).1 ≡ sorted_params params
unfolding validate_start_params
validate-params r params h = ground arith

read_params :
    (json : ParamsJson) (r : Resharing) (bytes : Bytes) (params : StartParams)
    → json.unmarshal bytes ≡ ok params
    → (validate_start_params r params).2 ≡ none
    → (unmarshall_start_params json r bytes).1 ≡ ok ((validate_start_params r params).1)
unfolding unmarshall_start_params
read_params json r bytes params e h = rw (e, h, unmarshall_start_params) refl

keep-same :
    (p q : PeerId → Bool) (xs : List PeerId) → ((x : PeerId) → p x ≡ q x) → keep p xs ≡ keep q xs
keep-same p q [] h = refl
keep-same p q (x ∷ xs) h = ground (arith, h x, keep-same p q xs h)

-- Nodes that agree on the peers of the key and on those that are known agree on the subset.
intersection-perm :
    (c r : Resharing)
    → Perm c.key_peers r.key_peers
    → ((p : PeerId) → contains c.peerstore p ≡ contains r.peerstore p)
    → Perm (peers_intersection c.key_peers c.peerstore) (peers_intersection r.key_peers r.peerstore)
unfolding peers_intersection
intersection-perm c r same stores =
    subst (λ xs. Perm (keep (contains c.peerstore) c.key_peers) xs)
      (keep-same (contains c.peerstore) (contains r.peerstore) r.key_peers stores)
      (keep-perm (contains c.peerstore) same)

-- A node takes the start parameters of a coordinator, with the same threshold and the same subset but
-- for its order, if its key share names the same peers and its peerstore holds the same, when the
-- coordinator's threshold is positive and not above the size of its subset, and start parameters are
-- read back as they were written.
pub start_params-accepted :
    (json : ParamsJson) (c r : Resharing) (ready_peers : List PeerId)
    → IsParamsJson json
    → Perm c.key_peers r.key_peers
    → ((p : PeerId) → contains c.peerstore p ≡ contains r.peerstore p)
    → is_positive c.key_threshold ≡ true
    → is_below (length (peers_intersection c.key_peers c.peerstore)) c.key_threshold ≡ false
    → (unmarshall_start_params json r (start_params json c ready_peers)).1
      ≡ ok (record {
        old_threshold = c.key_threshold;
        old_subset = sort text_less (peers_intersection c.key_peers c.peerstore);
      })
unfolding start_params sorted_params
start_params-accepted json c r ready_peers round same stores positive fits =
    let params : StartParams = record {
      old_threshold = c.key_threshold;
      old_subset = peers_intersection c.key_peers c.peerstore;
    } in
    let accepted =
      (validate-accepts r params).1 (positive, fits, inr (intersection-perm c r same stores)) in
    read_params json r (json.marshal params) params (round.round_trip params) accepted
    ∙ ap ok (validate-params r params accepted)

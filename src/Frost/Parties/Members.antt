-- ===== src/Frost/Parties/Members.antt =====
-- Which parties a list of peers gives.
use binance_tss_demo.Prelude.{
  ◌≡◌, refl, ap, ◌∙◌, sym, Bool, false, ◌||◌, List, [], ◌∷◌, ◌++◌, map, contains, bytes_Comparable,
  ◌==◌, if◌then◌else◌, arith, Distinct, snoc-Distinct, contains-append, contains-perm, Perm, length,
  length-map, length-perm, ◌≤◌, Bool-cases, inl, inr, true, Bytes, eq_refl,
}
use binance_tss_demo.Peers.{PeerId, PeerLib, IsPeerLib}
use binance_tss_demo.Peers.Counting.{length-contained}
use binance_tss_demo.Frost.Parties.{new_set, party_ids_from_peers}

or_false : (b : Bool) → b ≡ (b || false)
or_false b = ground arith

abbrev grown : List PeerId → PeerId → List PeerId
grown set q = if contains set q then set else set ++ q ∷ []

contains-grown :
    (set : List PeerId) (q p : PeerId) → contains (grown set q) p ≡ (contains set p || p == q)
contains-grown set q p = elim (Bool-cases (contains set q)) [
  | inl e ↦ ground (arith, bytes_Comparable.equal_iff p q)
  | inr e ↦ ground (arith, contains-append set (q ∷ []) p)
]

contains-new_set :
    (set ps : List PeerId) (p : PeerId)
    → contains (new_set set ps) p ≡ (contains set p || contains ps p)
unfolding new_set
contains-new_set set [] p = or_false (contains set p)
contains-new_set set (q ∷ ps) p =
    contains-new_set (grown set q) ps p ∙ ground (arith, contains-grown set q p)

grown-Distinct : (set : List PeerId) (q : PeerId) → Distinct set → Distinct (grown set q)
grown-Distinct set q d = elim (Bool-cases (contains set q)) [
  | inl e ↦ rw (e) d
  | inr e ↦ rw (e) (snoc-Distinct set q d e)
]

new_set-Distinct : (set ps : List PeerId) → Distinct set → Distinct (new_set set ps)
unfolding new_set
new_set-Distinct set [] d = d
new_set-Distinct set (q ∷ ps) d = new_set-Distinct (grown set q) ps (grown-Distinct set q d)

contains-map_pretty :
    (lib : PeerLib) (good : IsPeerLib lib) (ps : List PeerId) (p : PeerId)
    → contains (map lib.pretty ps) (lib.pretty p) ≡ contains ps p
contains-map_pretty lib good [] p = refl
contains-map_pretty lib good (q ∷ ps) p = ground (
  arith,
  contains-map_pretty lib good ps p,
  good.pretty_injective p q,
  ap lib.pretty,
  bytes_Comparable.equal_iff p q,
  bytes_Comparable.equal_iff (lib.pretty p) (lib.pretty q),
)

-- A set is listed in some order.
abbrev pub IsListing : (List PeerId → List PeerId) → Type 0
IsListing to_slice = (set : List PeerId) → Perm (to_slice set) set

contains-map_some :
    (ids : List Bytes) (lib : PeerLib) (xs : List PeerId) (id : Bytes)
    → ((p : PeerId) → contains xs p ≡ true → contains ids (lib.pretty p) ≡ true)
    → contains (map lib.pretty xs) id ≡ true
    → contains ids id ≡ true
contains-map_some ids lib [] id all h = absurd (cc)
contains-map_some ids lib (x ∷ xs) id all h = elim (Bool-cases (id == lib.pretty x)) [
  | inl e ↦
      ap (contains ids) ((bytes_Comparable.equal_iff id (lib.pretty x)).0 e)
      ∙ all x (ground (arith, eq_refl x))
  | inr e ↦ contains-map_some ids lib xs id (λ p k. all p (ground arith)) (ground arith)
]

contains-map_pretty_of :
    (lib : PeerLib) (ps : List PeerId) (p : PeerId)
    → contains ps p ≡ true
    → contains (map lib.pretty ps) (lib.pretty p) ≡ true
contains-map_pretty_of lib [] p h = absurd (cc)
contains-map_pretty_of lib (q ∷ ps) p h = ground (
  arith,
  contains-map_pretty_of lib ps p,
  bytes_Comparable.equal_iff p q,
  ap lib.pretty,
  bytes_Comparable.equal_iff (lib.pretty p) (lib.pretty q),
)

both_or_none : (a b : Bool) → (a ≡ true → b ≡ true) → (b ≡ true → a ≡ true) → a ≡ b
both_or_none a b p q = ground arith

-- The ids of parties are the text forms of the peers.
pub contains-party_ids :
    (lib : PeerLib) (to_slice : List PeerId → List PeerId) (peers : List PeerId) (id : Bytes)
    → IsListing to_slice
    → contains (party_ids_from_peers lib to_slice peers) id ≡ contains (map lib.pretty peers) id
unfolding party_ids_from_peers
contains-party_ids lib to_slice peers id listing =
    let same =
      λ (p : PeerId). contains-perm p (listing (new_set [] peers)) ∙ contains-new_set [] peers p in
    both_or_none _ _
      (contains-map_some _ lib (to_slice (new_set [] peers)) id
        (λ p h. contains-map_pretty_of lib peers p (sym (same p) ∙ h)))
      (contains-map_some _ lib peers id
        (λ p h. contains-map_pretty_of lib (to_slice (new_set [] peers)) p (same p ∙ h)))

party_ids-members :
    (lib : PeerLib) (good : IsPeerLib lib) (to_slice : List PeerId → List PeerId)
    (peers : List PeerId) (p : PeerId)
    → IsListing to_slice
    → contains (party_ids_from_peers lib to_slice peers) (lib.pretty p) ≡ contains peers p
unfolding party_ids_from_peers
party_ids-members lib good to_slice peers p listing =
    contains-map_pretty lib good (to_slice (new_set [] peers)) p
    ∙ contains-perm p (listing (new_set [] peers))
    ∙ contains-new_set [] peers p

length-party_ids :
    (lib : PeerLib) (to_slice : List PeerId → List PeerId) (peers : List PeerId)
    → IsListing to_slice
    → length (party_ids_from_peers lib to_slice peers) ≡ length (new_set [] peers)
unfolding party_ids_from_peers
length-party_ids lib to_slice peers listing =
    length-map lib.pretty (to_slice (new_set [] peers)) ∙ length-perm (listing (new_set [] peers))

new_set-le :
    (xs ys : List PeerId)
    → ((p : PeerId) → contains xs p ≡ contains ys p)
    → length (new_set [] xs) ≤ length (new_set [] ys)
new_set-le xs ys same =
    length-contained (new_set [] xs) (new_set [] ys) (new_set-Distinct [] xs tt)
      (λ p h. contains-new_set [] ys p ∙ sym (same p) ∙ sym (contains-new_set [] xs p) ∙ h)

-- Two nodes that know the same peers, in whatever order and however often they list them, give the
-- protocol equally many party ids, and the id of a peer is among them exactly if the peer is known.
pub party_ids-agree :
    (lib : PeerLib) (good : IsPeerLib lib) (first second : List PeerId → List PeerId)
    (xs ys : List PeerId)
    → IsListing first
    → IsListing second
    → ((p : PeerId) → contains xs p ≡ contains ys p)
    → (length (party_ids_from_peers lib first xs) ≡ length (party_ids_from_peers lib second ys))
      × ((p : PeerId)
          → (contains (party_ids_from_peers lib first xs) (lib.pretty p) ≡ contains xs p)
            × (contains (party_ids_from_peers lib second ys) (lib.pretty p) ≡ contains xs p))
party_ids-agree lib good first second xs ys is_first is_second same = (
  length-party_ids lib first xs is_first
      ∙ omega (arith, new_set-le xs ys same, new_set-le ys xs (λ p. sym (same p)))
      ∙ sym (length-party_ids lib second ys is_second),
  λ p. (
    party_ids-members lib good first xs p is_first,
    party_ids-members lib good second ys p is_second ∙ sym (same p),
  ),
)

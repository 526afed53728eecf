-- ===== src/Frost/Resharing/Shares.antt =====
-- The verification shares that a resharing starts with.
use binance_tss_demo.Prelude.{
  ◌≡◌, refl, ap, ◌∙◌, Bool, true, false, Bytes, List, [], ◌∷◌, Option, none, some, ok, length,
  nat_eq, if◌then◌else◌, bytes_Comparable, arith, contains, Option-cases, Bool-cases, ◌||◌, map,
  ◌++◌, inl, inr, ◌==◌,
}
use binance_tss_demo.Prelude.Maps.{lookup, insert, lookup-insert}
use binance_tss_demo.Peers.{PeerId, PeerLib}
use binance_tss_demo.Frost.Parties.Members.{IsListing, contains-party_ids}
use binance_tss_demo.Keyshare.Frost.{Curve, TaprootConfig}
use binance_tss_demo.Frost.Resharing.{
  Resharing, StartParams, ParamsJson, start_params, add_shares, initial_shares, prepared,
  with_shares, fill, party_ids, prepare,
}

-- What a lookup finds in a map after a default is put where there is no entry.
abbrev pub or_else : {A : Type 0} → Option A → Option A → Option A
or_else (some a) o = some a
or_else none o = o

or_else-none : {A : Type 0} (o : Option A) → o ≡ or_else o none
or_else-none none = refl
or_else-none (some a) = refl

-- One round of the loop.
lookup-round :
    {Point : Type 0} (new_point : Point) (x id : Bytes) (shares : List (Bytes × Point))
    → lookup id (elim (lookup x shares) [ some point ↦ shares | none ↦ insert x new_point shares ])
      ≡ or_else (lookup id shares) (if id == x then some new_point else none)
lookup-round new_point x id shares = elim (Option-cases (lookup x shares)) [
  | inl missing ↦
      ground (arith, missing, lookup-insert x id new_point shares, bytes_Comparable.equal_iff id x)
  | inr (point, found) ↦
      ground (arith, found, or_else-none (lookup id shares), bytes_Comparable.equal_iff id x)
]

or_else_twice :
    {A : Type 0} (o : Option A) (a : A) (p q : Bool)
    → or_else (or_else o (if p then some a else none)) (if q then some a else none)
      ≡ or_else o (if p || q then some a else none)
or_else_twice (some b) a p q = refl
or_else_twice none a true q = refl
or_else_twice none a false q = refl

lookup-add_shares :
    {Point : Type 0} (new_point : Point) (ids : List Bytes) (shares : List (Bytes × Point))
    (id : Bytes)
    → lookup id (add_shares new_point ids shares)
      ≡ or_else (lookup id shares) (if contains ids id then some new_point else none)
unfolding add_shares
lookup-add_shares new_point [] shares id = or_else-none (lookup id shares)
lookup-add_shares new_point (x ∷ ids) shares id =
    lookup-add_shares new_point ids _ id
    ∙ ap (λ o. or_else o (if contains ids id then some new_point else none))
        (lookup-round new_point x id shares)
    ∙ or_else_twice (lookup id shares) new_point (id == x) (contains ids id)

-- Start parameters are read back as they were written.
pub record IsParamsJson {curve : Curve} (json : ParamsJson curve) : Type 0 where
  pub round_trip : (params : StartParams curve) → json.unmarshal (json.marshal params) ≡ ok params

-- The public key and the shares that a node goes on with: its own, if it has shares.
abbrev pub old_key : {curve : Curve} → Resharing curve → Resharing curve → TaprootConfig curve
old_key r c = if nat_eq (length r.key.key.verification_shares) 0 then c.key.key else r.key.key

fill-shares :
    {curve : Curve} (r c : Resharing curve) (ids : List Bytes)
    → (s : Resharing curve) × (fill r ids (
          initial_shares r (record {
            public_key = c.key.key.public_key;
            verification_shares = some c.key.key.verification_shares;
          }))
        ≡ prepared s ids)
      × (s.key.key.public_key ≡ (old_key r c).public_key)
      × ((id : Bytes)
          → lookup id s.key.key.verification_shares
            ≡ or_else
                (lookup id (old_key r c).verification_shares)
                (if contains ids id then some curve.new_point else none))
unfolding fill initial_shares with_shares
fill-shares {curve} r c ids = elim (Bool-cases (nat_eq (length r.key.key.verification_shares) 0)) [
  | inl e ↦
      rw (e) (_, refl, refl, lookup-add_shares curve.new_point ids c.key.key.verification_shares)
  | inr e ↦
      rw (e) (_, refl, refl, lookup-add_shares curve.new_point ids r.key.key.verification_shares)
]

host_first :
    (lib : PeerLib) (host : PeerId) (peers : List PeerId) (id : Bytes)
    → contains (map lib.pretty (peers ++ host ∷ [])) id
      ≡ contains (map lib.pretty (host ∷ peers)) id
host_first lib host [] id = refl
host_first lib host (p ∷ ps) id = ground (arith, host_first lib host ps id)

-- A node that starts a resharing with the start parameters of a coordinator, read back as they were
-- written, takes the public key and the verification shares of the coordinator if it has no shares,
-- and else keeps its own; then each party of its peerstore and itself has a share, a new one if it had
-- none, and no other share changes; and the protocol gets the ids of these parties, if the set of the
-- peers is listed in some order.
pub prepare-shares :
    {curve : Curve} (lib : PeerLib) (to_slice : List PeerId → List PeerId) (json : ParamsJson curve)
    (c r : Resharing curve) (ready_peers : List PeerId)
    → IsParamsJson json
    → IsListing to_slice
    → (s : Resharing curve) × (ids : List Bytes) × (prepare lib to_slice json r
          (start_params json c ready_peers)
        ≡ prepared s ids)
      × (s.key.key.public_key ≡ (old_key r c).public_key)
      × ((id : Bytes) → contains ids id ≡ contains (map lib.pretty (r.host_id ∷ r.peerstore)) id)
      × ((id : Bytes)
          → lookup id s.key.key.verification_shares
            ≡ or_else (lookup id (old_key r c).verification_shares) (
                if contains (map lib.pretty (r.host_id ∷ r.peerstore)) id
                then some curve.new_point
                else none))
unfolding prepare start_params party_ids
prepare-shares {curve} lib to_slice json c r ready_peers is listing =
    let ids = party_ids lib to_slice json r in
    let (s, e, key, shares) = fill-shares r c ids in
    let read = is.round_trip (record {
      public_key = c.key.key.public_key;
      verification_shares = some c.key.key.verification_shares;
    }) in
    let members = λ (id : Bytes).
      contains-party_ids lib to_slice (r.peerstore ++ r.host_id ∷ []) id listing
      ∙ host_first lib r.host_id r.peerstore id in
    (
      s,
      ids,
      rw (read, prepare) e,
      key,
      members,
      λ id.
          shares id
          ∙ ap
              (λ b.
                or_else (lookup id (old_key r c).verification_shares)
                  (if b then some curve.new_point else none))
              (members id),
    )

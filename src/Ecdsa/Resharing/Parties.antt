-- ===== src/Ecdsa/Resharing/Parties.antt =====
-- `sortParties` of tss_util/tss/ecdsa/resharing/resharing.go.
pub mod Indexed
use binance_tss_demo.Prelude.{
  ℕ, zero, suc, ◌+◌, ◌*◌, Bool, true, false, not, Bytes, List, [], ◌∷◌, ◌++◌, Option, none, some,
  Result, ok, err, map, length, take, ◌-◌, if◌then◌else◌,
}
use binance_tss_demo.Peers.{PeerId, PeerLib, is_participant, peers_from_ids}
use binance_tss_demo.Ecdsa.Parties.{PartyId}

abbrev pub nils : ℕ → List (Option PartyId)
nils zero = []
nils (suc n) = none ∷ nils n

-- A write at an index: `none` is the panic of an index out of range.
abbrev pub write_at {ℓ} : {A : Type ℓ} → ℕ → A → List A → Option (List A)
write_at index new [] = none
write_at zero new (x ∷ xs) = some (new ∷ xs)
write_at (suc index) new (x ∷ xs) =
    let rest = write_at index new xs in elim rest [ none ↦ none | some ys ↦ some (x ∷ ys) ]

-- `copy` into a list of `n` nil pointers.
abbrev pub copied : ℕ → List PartyId → List (Option PartyId)
copied n old = take n (map some old) ++ nils (n - length old)

-- The errors of decoding are dropped, with what comes with them: no peers, and the empty id.
old_peers : PeerLib → List PartyId → List PeerId
old_peers lib old = elim (peers_from_ids lib (map (λ p. p.id) old)) [
  | ok peers ↦ peers
  | err e ↦ []
]

decoded_id : Option PeerId → PeerId
decoded_id none = []
decoded_id (some p) = p

unfoldable pub is_old : PeerLib → List PartyId → PartyId → Bool
unfolding old_peers decoded_id
is_old lib old party = is_participant lib (decoded_id (lib.decode party.id)) (old_peers lib old)

-- The loop over the parties, which fills the list from an index on; each party that is put there gets
-- the index as its own.
unfoldable pub fill_parties :
    (PartyId → Bool) → ℕ → List (Option PartyId) → List PartyId → Option (List (Option PartyId))
fill_parties old index news [] = some news
fill_parties old index news (party ∷ parties) = elim (old party) [
  | true ↦ fill_parties old index news parties
  | false ↦ elim (write_at index (some (record party { index = index })) news) [
    | none ↦ none
    | some written ↦ fill_parties old (suc index) written parties
  ]
]

-- `sortParties`: `none` is a panic, and a nil pointer may be left in the list.
unfoldable pub sort_parties : PeerLib → List PartyId → List PartyId → Option (List (Option PartyId))
unfolding is_old fill_parties
sort_parties lib parties old =
    fill_parties (is_old lib old) (length old) (copied (length parties) old) parties

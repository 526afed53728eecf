-- ===== src/Ecdsa/Resharing/Parties/Indexed.antt =====
-- The indexes of the new parties.
use binance_tss_demo.Prelude.{
  ℕ, zero, suc, ◌-◌, ◌≤◌, ◌≡◌, refl, ap, ◌∙◌, sym, Bool, true, false, not, List, [], ◌∷◌, ◌++◌,
  Option, none, some, map, length, take, leb, keep, if◌then◌else◌, arith, length-append, Bool-cases,
  inl, inr, length-map,
}
use mathlib.Core.List.{append_assoc}
use binance_tss_demo.Peers.{PeerLib}
use binance_tss_demo.Ecdsa.Parties.{PartyId}
use binance_tss_demo.Ecdsa.Resharing.Parties.{
  nils, write_at, copied, is_old, fill_parties, sort_parties,
}

-- The parties with the indexes from one on.
abbrev pub indexed : ℕ → List PartyId → List PartyId
indexed index [] = []
indexed index (p ∷ ps) = record p { index = index } ∷ indexed (suc index) ps

write_at-end :
    (filled : List (Option PartyId)) (new : Option PartyId) (k : ℕ)
    → write_at (length filled) new (filled ++ nils (suc k)) ≡ some ((filled ++ new ∷ []) ++ nils k)
write_at-end [] new k = refl
write_at-end (x ∷ filled) new k = rw (write_at-end filled new k) refl

write_at-outside :
    (filled : List (Option PartyId)) (new : Option PartyId)
    → write_at (length filled) new (filled ++ []) ≡ none
write_at-outside [] new = refl
write_at-outside (x ∷ filled) new = rw (write_at-outside filled new) refl

-- A list that is filled up to an index, with more parties and what is left of the nil pointers.
abbrev pub with_fresh : List (Option PartyId) → ℕ → ℕ → List PartyId → List (Option PartyId)
with_fresh filled index left ps = filled ++ (map some (indexed index ps) ++ nils left)

-- What the loop makes of it.
abbrev filled_with : List (Option PartyId) → ℕ → List PartyId → Option (List (Option PartyId))
filled_with filled k ps =
    if leb (length ps) k then some (with_fresh filled (length filled) (k - length ps) ps) else none

if_some :
    {A : Type 0} {b c : Bool} {x y : A}
    → b ≡ c
    → x ≡ y
    → (if b then some x else none) ≡ (if c then some y else none)
if_some p q = cc

filled_with-end :
    (filled : List (Option PartyId)) (k : ℕ) → some (filled ++ nils k) ≡ filled_with filled k []
filled_with-end filled k =
    if_some {b = true} {c = leb 0 k} (ground arith) (ap (λ n. filled ++ nils n) (omega arith))

filled_with-full :
    (filled : List (Option PartyId)) (p : PartyId) (ps : List PartyId)
    → none ≡ filled_with filled 0 (p ∷ ps)
filled_with-full filled p ps = sym (
    ap
      (λ b.
        if b then some (with_fresh filled (length filled) (0 - suc (length ps)) (p ∷ ps)) else none)
      (not_below (length ps)))
  where
    not_below : (n : ℕ) → leb (suc n) 0 ≡ false
    not_below n = ground arith

leb-suc : (n k : ℕ) → leb n k ≡ leb (suc n) (suc k)
leb-suc n k = ground arith

longer :
    (filled : List (Option PartyId)) (new : Option PartyId)
    → length (filled ++ new ∷ []) ≡ suc (length filled)
longer filled new = omega (arith, length-append filled (new ∷ []))

filled_with-next :
    (filled : List (Option PartyId)) (k : ℕ) (p : PartyId) (ps : List PartyId)
    → filled_with (filled ++ some (record p { index = length filled }) ∷ []) k ps
      ≡ filled_with filled (suc k) (p ∷ ps)
filled_with-next filled k p ps =
    let new = some (record p { index = length filled }) in
    if_some (leb-suc (length ps) k) (
      append_assoc filled (new ∷ []) _
      ∙ ap (λ n. filled ++ new ∷ (map some (indexed n ps) ++ nils (k - length ps)))
          (longer filled new)
      ∙ ap (λ n. filled ++ new ∷ (map some (indexed (suc (length filled)) ps) ++ nils n))
          (omega arith))

module _ (old : PartyId → Bool) where
  abbrev pub fresh : List PartyId → List PartyId
  fresh ps = keep (λ p. not (old p)) ps

  fill_parties-filled :
      (ps : List PartyId) (filled : List (Option PartyId)) (k : ℕ)
      → fill_parties old (length filled) (filled ++ nils k) ps ≡ filled_with filled k (fresh ps)
  unfolding fill_parties
  fill_parties-filled [] filled k = filled_with-end filled k
  fill_parties-filled (p ∷ ps) filled zero = elim (Bool-cases (old p)) [
    | inl e ↦ rw (e, fill_parties) (fill_parties-filled ps filled zero)
    | inr e ↦
        rw (e, fill_parties, write_at-outside filled (some (record p { index = length filled })))
          (filled_with-full filled p (fresh ps))
  ]
  fill_parties-filled (p ∷ ps) filled (suc k) = elim (Bool-cases (old p)) [
    | inl e ↦ rw (e, fill_parties) (fill_parties-filled ps filled (suc k))
    | inr e ↦
        let new = some (record p { index = length filled }) in
        rw (e, fill_parties, write_at-end filled new k)
          (ap (λ n. fill_parties old n ((filled ++ new ∷ []) ++ nils k) ps)
              (sym (longer filled new))
            ∙ fill_parties-filled ps (filled ++ new ∷ []) k
            ∙ filled_with-next filled k p (fresh ps))
  ]

take-all : {A : Type 0} (n : ℕ) (xs : List A) → length xs ≤ n → take n xs ≡ xs
take-all zero [] h = refl
take-all zero (x ∷ xs) h = absurd (omega arith)
take-all (suc n) [] h = refl
take-all (suc n) (x ∷ xs) h = ap (λ ys. x ∷ ys) (take-all n xs (omega arith))

copied-fits :
    (n : ℕ) (old : List PartyId)
    → length old ≤ n
    → copied n old ≡ map some old ++ nils (n - length old)
copied-fits n old h =
    ap (λ xs. xs ++ nils (n - length old))
      (take-all n (map some old) (omega (arith, length-map some old)))

-- If there are no more old parties than parties of the peerstore, the list of the new parties has the
-- old ones first, as they are, and then, in their order, those that are not old, with indexes that
-- count on from the old ones; what is left of the list is nil. But if the list is too short for them,
-- the call panics.
pub sort_parties-indexed :
    (lib : PeerLib) (parties old : List PartyId)
    → length old ≤ length parties
    → let room = length parties - length old in
      let others = fresh (is_old lib old) parties in
      sort_parties lib parties old ≡ (
        if leb (length others) room
        then some (with_fresh (map some old) (length old) (room - length others) others)
        else none)
unfolding sort_parties
sort_parties-indexed lib parties old h =
    let room = length parties - length old in
    let others = fresh (is_old lib old) parties in
    ap (λ news. fill_parties (is_old lib old) (length old) news parties)
      (copied-fits (length parties) old h)
    ∙ ap (λ n. fill_parties (is_old lib old) n (map some old ++ nils room) parties)
        (sym (length-map some old))
    ∙ fill_parties-filled (is_old lib old) parties (map some old) room
    ∙ ap
        (λ n.
          if leb (length others) room
          then some (with_fresh (map some old) n (room - length others) others)
          else none)
        (length-map some old)

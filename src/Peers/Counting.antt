-- ===== src/Peers/Counting.antt =====
-- Counting peers: a list without repetition fits into any list that holds its elements.
use binance_tss_demo.Prelude.{
  ◌≤◌, ◌<◌, not, List, [], ◌∷◌, ◌≡◌, true, length, keep, length-keep-le, contains, contains-keep,
  Distinct, bytes_Comparable, ◌==◌, arith, eq_refl, Bool-cases, inl, inr, Bool,
}
use binance_tss_demo.Peers.{PeerId}

abbrev other_than : PeerId → PeerId → Bool
other_than x p = not (p == x)

length-keep-lt :
    (x : PeerId) (ys : List PeerId)
    → contains ys x ≡ true
    → length (keep (other_than x) ys) < length ys
length-keep-lt x [] h = absurd (cc)
length-keep-lt x (y ∷ ys) h = ground (
  arith,
  length-keep-lt x ys,
  length-keep-le (other_than x) ys,
  bytes_Comparable.equal_iff x y,
  bytes_Comparable.equal_iff y x,
)

pub length-contained :
    (xs ys : List PeerId)
    → Distinct xs
    → ((p : PeerId) → contains xs p ≡ true → contains ys p ≡ true)
    → length xs ≤ length ys
length-contained [] ys d h = omega arith
length-contained (x ∷ xs) ys d h =
    let shorter = length-keep-lt x ys (h x (ground (arith, eq_refl x))) in
    let rest = length-contained xs (keep (other_than x) ys) d.1 (λ p c.
      ground (arith, contains-keep (other_than x) ys p, h p, bytes_Comparable.equal_iff p x)) in
    omega (arith, shorter, rest)

-- As many peers as the list has are all of its peers.
pub contained-all :
    (xs ys : List PeerId)
    → Distinct xs
    → ((p : PeerId) → contains xs p ≡ true → contains ys p ≡ true)
    → length xs ≡ length ys
    → (p : PeerId) → contains ys p ≡ true
    → contains xs p ≡ true
contained-all xs ys d h same p c = elim (Bool-cases (contains xs p)) [
  | inl t ↦ t
  | inr f ↦ absurd (
      omega (
        arith,
        same,
        length-keep-lt p ys c,
        length-contained xs (keep (other_than p) ys) d (λ q e.
            ground
              (arith, contains-keep (other_than p) ys q, h q e, bytes_Comparable.equal_iff q p)),
      ))
]

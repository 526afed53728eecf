-- ===== src/Sort/Order.antt =====
-- Sorting by a numeric key, greatest key first: the result is ordered, holds the same elements, and
-- is the only such list when equal keys mean equal elements.
use mathlib.Core.List.{perm_middle, append-nil}
use mathlib.Core.List.Perm
use binance_tss_demo.Prelude.{
  ℕ, ◌≤◌, List, [], ◌∷◌, ◌++◌, Perm, Bool, arith, ltb, All, Bool-cases, inl, inr,
}
use binance_tss_demo.Sort.{insert, insert_all, sort}

module _ {ℓ} {A : Type ℓ} (key : A → ℕ) where
  abbrev pub above : A → A → Bool
  above a b = ltb (key b) (key a)

  abbrev pub IsSorted : List A → Type 0
  IsSorted [] = Unit
  IsSorted (x ∷ xs) = All (λ y. key y ≤ key x) xs × IsSorted xs

  All-weaken : (m n : ℕ) (xs : List A) → m ≤ n → All (λ y. key y ≤ m) xs → All (λ y. key y ≤ n) xs
  All-weaken m n [] h a = tt
  All-weaken m n (x ∷ xs) h a = (omega arith, All-weaken m n xs h a.1)

  All-insert :
      (n : ℕ) (x : A) (xs : List A)
      → key x ≤ n
      → All (λ y. key y ≤ n) xs
      → All (λ y. key y ≤ n) (insert above x xs)
  unfolding insert
  All-insert n x [] h a = (h, tt)
  All-insert n x (y ∷ ys) h a = ground (arith, All-insert n x ys h a.1)

  insert-IsSorted : (x : A) (xs : List A) → IsSorted xs → IsSorted (insert above x xs)
  unfolding insert
  insert-IsSorted x [] s = (tt, tt)
  insert-IsSorted x (y ∷ ys) s =
      ground
        (arith, insert-IsSorted x ys s.1, All-insert (key y) x ys, All-weaken (key y) (key x) ys)

  insert_all-IsSorted : (acc xs : List A) → IsSorted acc → IsSorted (insert_all above acc xs)
  unfolding insert_all
  insert_all-IsSorted acc [] s = s
  insert_all-IsSorted acc (x ∷ xs) s =
      insert_all-IsSorted (insert above x acc) xs (insert-IsSorted x acc s)

  pub sort-IsSorted : (xs : List A) → IsSorted (sort above xs)
  unfolding sort
  sort-IsSorted xs = insert_all-IsSorted [] xs tt

module _ {ℓ} {A : Type ℓ} (less : A → A → Bool) where
  insert-perm : (x : A) (xs : List A) → Perm (insert less x xs) (x ∷ xs)
  unfolding insert
  insert-perm x [] = Perm.refl _
  insert-perm x (y ∷ ys) = elim (Bool-cases (less x y)) [
    | inl t ↦ rw t (Perm.refl _)
    | inr f ↦ rw f (Perm.trans (Perm.cons y (insert-perm x ys)) (Perm.swap x y ys))
  ]

  insert_all-perm : (acc xs : List A) → Perm (insert_all less acc xs) (xs ++ acc)
  unfolding insert_all
  insert_all-perm acc [] = Perm.refl _
  insert_all-perm acc (x ∷ xs) =
      Perm.trans (insert_all-perm (insert less x acc) xs)
        (Perm.trans (Perm.append (Perm.refl xs) (insert-perm x acc)) (perm_middle xs acc))

  pub sort-perm : (xs : List A) → Perm (sort less xs) xs
  unfolding sort
  sort-perm xs = rw append-nil at (insert_all-perm [] xs)

-- ===== src/Sort.antt =====
-- Go's sort.Sort and slices.Sort, as the insertion sort that they run on short slices (up to 12 elements).
pub mod Order
pub mod Unique
pub mod Mapped
pub mod Total
pub mod Text
use binance_tss_demo.Prelude.{List, [], ◌∷◌, Bool, if◌then◌else◌}

module _ {ℓ} {A : Type ℓ} (less : A → A → Bool) where
  -- One round of the inner loop: the new element moves left past all that it is less than.
  unfoldable pub insert : A → List A → List A
  insert x [] = x ∷ []
  insert x (y ∷ ys) = let rest = insert x ys in if less x y then x ∷ y ∷ ys else y ∷ rest

  unfoldable pub insert_all : List A → List A → List A
  unfolding insert
  insert_all acc [] = acc
  insert_all acc (x ∷ xs) = insert_all (insert x acc) xs

  unfoldable pub sort : List A → List A
  unfolding insert_all
  sort xs = insert_all [] xs

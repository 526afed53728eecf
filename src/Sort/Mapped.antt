-- ===== src/Sort/Mapped.antt =====
-- Sorting commutes with a map that keeps the comparison.
use binance_tss_demo.Prelude.{◌≡◌, refl, ap, ◌∙◌, List, [], ◌∷◌, map, Bool, arith}
use binance_tss_demo.Sort.{insert, insert_all, sort}

module _ {A B : Type 0} (f : A → B) (less : B → B → Bool) where
  abbrev pub less_under : A → A → Bool
  less_under a b = less (f a) (f b)

  insert-map : (x : A) (xs : List A) → insert less (f x) (map f xs) ≡ map f (insert less_under x xs)
  unfolding insert
  insert-map x [] = refl
  insert-map x (y ∷ ys) = ground (arith, insert-map x ys)

  insert_all-map :
      (acc xs : List A)
      → insert_all less (map f acc) (map f xs) ≡ map f (insert_all less_under acc xs)
  unfolding insert_all
  insert_all-map acc [] = refl
  insert_all-map acc (x ∷ xs) =
      ap (λ c. insert_all less c (map f xs)) (insert-map x acc)
      ∙ insert_all-map (insert less_under x acc) xs

  pub sort-map : (xs : List A) → sort less (map f xs) ≡ map f (sort less_under xs)
  unfolding sort
  sort-map xs = insert_all-map [] xs

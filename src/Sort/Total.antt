-- ===== src/Sort/Total.antt =====
-- Sorting by a total order: the sorted list does not depend on the order in which elements come.
use mathlib.Core.Logic.{∥∥₁_elim}
use mathlib.Core.List
use mathlib.Core.List.{Permᴰ}
use mathlib.Core.List.Permᴰ
use binance_tss_demo.Prelude.{
  ◌≡◌, refl, ap, ◌∙◌, sym, Bool, true, false, inl, inr, List, [], ◌∷◌, Perm, keep, All,
  if◌then◌else◌, arith, Bool-cases,
}
use binance_tss_demo.Sort.{insert, insert_all, sort}

pub record IsTotal {ℓ} {A : Type ℓ} (less : A → A → Bool) : Type ℓ where
  pub asymmetric : (a b : A) → less a b ≡ true → less b a ≡ false
  pub transitive : (a b c : A) → less a b ≡ true → less b c ≡ true → less a c ≡ true
  pub equal_if : (a b : A) → less a b ≡ false → less b a ≡ false → a ≡ b

module _ {A : Type 0} (less : A → A → Bool) (t : IsTotal less) where
  insert_swap_less :
      (x y : A) (zs : List A)
      → less x y ≡ true
      → insert less x (insert less y zs) ≡ insert less y (insert less x zs)
  unfolding insert
  insert_swap_less x y [] h = ground (arith, t.asymmetric x y)
  insert_swap_less x y (z ∷ zs) h =
      ground (arith, insert_swap_less x y zs h, t.asymmetric x y, t.transitive x y z)

  insert_swap :
      (x y : A) (zs : List A) → insert less x (insert less y zs) ≡ insert less y (insert less x zs)
  insert_swap x y zs = elim (Bool-cases (less x y)) [
    | inl h ↦ insert_swap_less x y zs h
    | inr f ↦ elim (Bool-cases (less y x)) [
      | inl h ↦ sym (insert_swap_less y x zs h)
      | inr g ↦
          let e = t.equal_if x y f g in
          ap (λ a. insert less a (insert less y zs)) e
          ∙ ap (λ a. insert less y (insert less a zs)) (sym e)
    ]
  ]

  insert_all-Permᴰ :
      {xs ys : List A}
      → Permᴰ xs ys
      → (acc : List A) → insert_all less acc xs ≡ insert_all less acc ys
  unfolding insert_all
  insert_all-Permᴰ Permᴰ.nil acc = refl
  insert_all-Permᴰ (Permᴰ.cons {a} {b} {l₁} {l₂} e d) acc =
      insert_all-Permᴰ d (insert less a acc) ∙ ap (λ c. insert_all less (insert less c acc) l₂) e
  insert_all-Permᴰ (Permᴰ.swap {a} {b} {a'} {b'} {l} e f) acc =
      rw (← e, ← f) (ap (λ c. insert_all less c l) (insert_swap b a acc))
  insert_all-Permᴰ (Permᴰ.trans d e) acc = insert_all-Permᴰ d acc ∙ insert_all-Permᴰ e acc

  pub sort-perm_agree : IsSet A → (xs ys : List A) → Perm xs ys → sort less xs ≡ sort less ys
  unfolding sort
  sort-perm_agree As xs ys p = ∥∥₁_elim p (List.is_set As _ _) (λ d. insert_all-Permᴰ d [])

  -- No element comes before one that it is less than.
  abbrev pub IsOrdered : List A → Type 0
  IsOrdered [] = Unit {0}
  IsOrdered (x ∷ xs) = All (λ y. less y x ≡ false) xs × IsOrdered xs

  All-insert : (P : A → Type 0) (x : A) (ys : List A) → P x → All P ys → All P (insert less x ys)
  unfolding insert
  All-insert P x [] h a = (h, tt)
  All-insert P x (y ∷ ys) h a = elim (Bool-cases (less x y)) [
    | inl e ↦ rw (e, insert) (h, a)
    | inr e ↦ rw (e, insert) (a.0, All-insert P x ys h a.1)
  ]

  All-map : (P Q : A → Type 0) (ys : List A) → ((y : A) → P y → Q y) → All P ys → All Q ys
  All-map P Q [] f a = tt
  All-map P Q (y ∷ ys) f a = (f y a.0, All-map P Q ys f a.1)

  below : (x y z : A) → less x y ≡ true → less z y ≡ false → less x z ≡ true
  below x y z h n = elim (Bool-cases (less x z)) [
    | inl e ↦ e
    | inr e ↦ elim (Bool-cases (less z x)) [
      | inl g ↦ absurd (ground (arith, t.transitive z x y g h))
      | inr g ↦ absurd (ground (arith, ap (λ a. less a y) (t.equal_if x z e g)))
    ]
  ]

  insert-IsOrdered : (x : A) (ys : List A) → IsOrdered ys → IsOrdered (insert less x ys)
  unfolding insert
  insert-IsOrdered x [] o = (tt, tt)
  insert-IsOrdered x (y ∷ ys) o = elim (Bool-cases (less x y)) [
    | inl e ↦
        rw (e, insert)
          (
            (
              t.asymmetric x y e,
              All-map _ (λ z. less z x ≡ false) ys (λ z n. t.asymmetric x z (below x y z e n)) o.0,
            ),
            o,
          )
    | inr e ↦
        rw (e, insert) (All-insert (λ z. less z y ≡ false) x ys e o.0, insert-IsOrdered x ys o.1)
  ]

  keep-All : (P : A → Type 0) (p : A → Bool) (ys : List A) → All P ys → All P (keep p ys)
  keep-All P p [] a = tt
  keep-All P p (y ∷ ys) a = elim (Bool-cases (p y)) [
    | inl e ↦ rw (e, keep) (a.0, keep-All P p ys a.1)
    | inr e ↦ rw (e, keep) (keep-All P p ys a.1)
  ]

  insert-first : (x : A) (ys : List A) → All (λ y. less x y ≡ true) ys → insert less x ys ≡ x ∷ ys
  unfolding insert
  insert-first x [] a = refl
  insert-first x (y ∷ ys) a = rw (a.0) refl

  keep-insert :
      (p : A → Bool) (x : A) (ys : List A)
      → IsOrdered ys
      → keep p (insert less x ys)
        ≡ (let kept = keep p ys in if p x then insert less x kept else kept)
  unfolding insert
  keep-insert p x [] o = ground arith
  keep-insert p x (y ∷ ys) o = ground (
    arith,
    keep-insert p x ys o.1,
    insert-first x (keep p ys),
    λ (e : less x y ≡ true).
        keep-All (λ z. less x z ≡ true) p ys (All-map _ _ ys (λ z n. below x y z e n) o.0),
  )

  keep-insert_all :
      (p : A → Bool) (acc xs : List A)
      → IsOrdered acc
      → keep p (insert_all less acc xs) ≡ insert_all less (keep p acc) (keep p xs)
  unfolding insert_all
  keep-insert_all p acc [] o = refl
  keep-insert_all p acc (x ∷ xs) o =
      keep-insert_all p (insert less x acc) xs (insert-IsOrdered x acc o)
      ∙ ap (λ a. insert_all less a (keep p xs)) (keep-insert p x acc o)
      ∙ chosen (p x)
    where
      chosen :
          (b : Bool)
          → insert_all less (if b then insert less x (keep p acc) else keep p acc) (keep p xs)
            ≡ insert_all less (keep p acc) (if b then x ∷ keep p xs else keep p xs)
      chosen true = refl
      chosen false = refl

  -- Sorting and taking the elements that pass a test can change places.
  pub keep-sort : (p : A → Bool) (xs : List A) → keep p (sort less xs) ≡ sort less (keep p xs)
  unfolding sort
  keep-sort p xs = keep-insert_all p [] xs tt

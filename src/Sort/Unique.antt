-- ===== src/Sort/Unique.antt =====
-- The order in which elements come does not matter to sorting when equal keys mean equal elements.
use mathlib.Core.Path.{subst}
use mathlib.Core.Logic.{∥∥₁_elim}
use mathlib.Core.List.{Permᴰ, append_assoc, append-nil}
use mathlib.Core.List
use binance_tss_demo.Prelude.{
  ℕ, ◌≤◌, ◌≡◌, refl, sym, ◌∙◌, ap, List, [], ◌∷◌, ◌++◌, Perm, arith, All,
}
use binance_tss_demo.Sort.{insert, insert_all, sort}
use binance_tss_demo.Sort.Order.{above, IsSorted}

module _ {A : Type 0} (key : A → ℕ) where
  -- Elements of equal keys are equal.
  abbrev pub Apart : List A → Type 0
  Apart [] = Unit
  Apart (x ∷ xs) = All (λ y. key x ≡ key y → x ≡ y) xs × Apart xs

  insert_comm :
      (a b : A) (xs : List A)
      → (key a ≡ key b → a ≡ b)
      → insert (above key) a (insert (above key) b xs)
        ≡ insert (above key) b (insert (above key) a xs)
  unfolding insert
  insert_comm a b [] h = ground arith
  insert_comm a b (y ∷ ys) h = ground (arith, insert_comm a b ys h)

module _ {A : Type 0} (P : A → Type 0) where
  All-Permᴰ : {xs ys : List A} → Permᴰ xs ys → All P xs → All P ys
  All-Permᴰ Permᴰ.nil a = a
  All-Permᴰ (Permᴰ.cons e d) a = (subst P e a.0, All-Permᴰ d a.1)
  All-Permᴰ (Permᴰ.swap e f) a = (subst P f a.1.0, (subst P e a.0, a.1.1))
  All-Permᴰ (Permᴰ.trans d e) a = All-Permᴰ e (All-Permᴰ d a)

module _ {A : Type 0} (key : A → ℕ) where
  abbrev Commutes : A → A → Type 0
  Commutes x y = key x ≡ key y → x ≡ y

  Apart-cons : (a b : A) (xs : List A) → a ≡ b → All (Commutes a) xs → All (Commutes b) xs
  Apart-cons a b xs e h = subst (λ c. All (Commutes c) xs) e h

  Apart-swap :
      (a b a' b' : A) (xs : List A)
      → a ≡ b'
      → b ≡ a'
      → Apart key (a ∷ b ∷ xs)
      → Apart key (a' ∷ b' ∷ xs)
  Apart-swap a b a' b' xs e f ((c, ha), (hb, h)) =
      ((λ k. cc (c (cc)), Apart-cons b a' xs f hb), (Apart-cons a b' xs e ha, h))

  Apart-Permᴰ : {xs ys : List A} → Permᴰ xs ys → Apart key xs → Apart key ys
  Apart-Permᴰ Permᴰ.nil h = h
  Apart-Permᴰ (Permᴰ.cons {a} {b} {l₁} {l₂} e d) h =
      (Apart-cons a b l₂ e (All-Permᴰ (Commutes a) d h.0), Apart-Permᴰ d h.1)
  Apart-Permᴰ (Permᴰ.swap {a} {b} {a'} {b'} {l} e f) h = Apart-swap a b a' b' l e f h
  Apart-Permᴰ (Permᴰ.trans d e) h = Apart-Permᴰ e (Apart-Permᴰ d h)

  insert_all-Permᴰ :
      {xs ys : List A}
      → Permᴰ xs ys
      → Apart key xs
      → (acc : List A) → insert_all (above key) acc xs ≡ insert_all (above key) acc ys
  unfolding insert_all
  insert_all-Permᴰ Permᴰ.nil h acc = refl
  insert_all-Permᴰ (Permᴰ.cons {a} {b} {l₁} {l₂} e d) h acc =
      insert_all-Permᴰ d h.1 (insert (above key) a acc)
      ∙ ap (λ c. insert_all (above key) (insert (above key) c acc) l₂) e
  insert_all-Permᴰ (Permᴰ.swap {a} {b} {a'} {b'} {l} e f) h acc =
      rw (← e, ← f)
        (ap (λ c. insert_all (above key) c l) (insert_comm key b a acc (λ k. sym (h.0.0 (sym k)))))
  insert_all-Permᴰ (Permᴰ.trans d e) h acc =
      insert_all-Permᴰ d h acc ∙ insert_all-Permᴰ e (Apart-Permᴰ d h) acc

  insert-last :
      (x : A) (acc : List A)
      → All (λ y. key x ≤ key y) acc
      → insert (above key) x acc ≡ acc ++ x ∷ []
  unfolding insert
  insert-last x [] h = refl
  insert-last x (y ∷ ys) h = ground (arith, insert-last x ys h.1)

  IsSorted-front :
      (acc : List A) (x : A) (xs : List A)
      → IsSorted key (acc ++ x ∷ xs)
      → All (λ y. key x ≤ key y) acc
  IsSorted-front [] x xs s = tt
  IsSorted-front (y ∷ ys) x xs s = (All-middle ys s.0, IsSorted-front ys x xs s.1)
    where
      All-middle : (zs : List A) → All (λ z. key z ≤ key y) (zs ++ x ∷ xs) → key x ≤ key y
      All-middle [] a = a.0
      All-middle (z ∷ zs) a = All-middle zs a.1

  insert_all-sorted :
      (acc xs : List A) → IsSorted key (acc ++ xs) → insert_all (above key) acc xs ≡ acc ++ xs
  unfolding insert_all
  insert_all-sorted acc [] s = sym (append-nil acc)
  insert_all-sorted acc (x ∷ xs) s =
      rw (insert-last x acc (IsSorted-front acc x xs s))
        (insert_all-sorted (acc ++ x ∷ []) xs (rw append_assoc s) ∙ append_assoc acc (x ∷ []) xs)

  -- The sorted list depends on the elements only, and not on the order in which they come.
  pub sort-agree :
      (As : IsSet A) (xs ys : List A)
      → Apart key xs
      → Perm xs ys
      → sort (above key) xs ≡ sort (above key) ys
  unfolding sort
  sort-agree As xs ys h p = ∥∥₁_elim p (List.is_set As _ _) (λ d. insert_all-Permᴰ d h [])

  -- Any ordered list of the same elements is the sorted list, so any correct sort gives it.
  pub sort_unique :
      (As : IsSet A) (xs ys : List A)
      → Apart key xs
      → Perm xs ys
      → IsSorted key ys
      → sort (above key) xs ≡ ys
  unfolding sort
  sort_unique As xs ys h p s = sort-agree As xs ys h p ∙ insert_all-sorted [] ys s

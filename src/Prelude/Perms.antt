-- ===== src/Prelude/Perms.antt =====
-- What reordering a list keeps: membership, length, and having no repetition.
use mathlib.Core.Logic.{∥∥₁_elim, ∥∥₁_map}
use mathlib.Core.Bool.{Bool, true, false, Bool-set}
use mathlib.Core.Path.{◌≡◌, refl, ap, ◌∙◌, subst, subst₂}
use mathlib.Core.List.{List, ◌∷◌, Perm, Permᴰ}
use mathlib.Core.List.Permᴰ
use native.Mathlib.Omega.{arith}
use native.Mathlib.Nat.{ℕ_set}
use binance_tss_demo.Prelude.Tests.{Comparable, ◌==◌, if◌then◌else◌}
use binance_tss_demo.Prelude.Lists.{contains, length, keep}

module _ {ℓ} {A : Type ℓ} where
  length-Permᴰ : {xs ys : List A} → Permᴰ xs ys → length xs ≡ length ys
  length-Permᴰ Permᴰ.nil = refl
  length-Permᴰ (Permᴰ.cons e d) = omega (arith, length-Permᴰ d)
  length-Permᴰ (Permᴰ.swap e f) = refl
  length-Permᴰ (Permᴰ.trans d e) = length-Permᴰ d ∙ length-Permᴰ e

  pub length-perm : {xs ys : List A} → Perm xs ys → length xs ≡ length ys
  length-perm p = ∥∥₁_elim p (ℕ_set _ _) length-Permᴰ

module _ {A : Type 0} (p : A → Bool) where
  keep_cons :
      (b : Bool) (a : A) {xs ys : List A}
      → Permᴰ xs ys
      → Permᴰ (if b then a ∷ xs else xs) (if b then a ∷ ys else ys)
  keep_cons true a d = Permᴰ.cons refl d
  keep_cons false a d = d

  keep_swap :
      (b c : Bool) (x y : A) (xs : List A)
      → Permᴰ
          (if b then x ∷ (if c then y ∷ xs else xs) else (if c then y ∷ xs else xs))
          (if c then y ∷ (if b then x ∷ xs else xs) else (if b then x ∷ xs else xs))
  keep_swap true true x y xs = Permᴰ.swap refl refl
  keep_swap true false x y xs = Permᴰ.refl _
  keep_swap false true x y xs = Permᴰ.refl _
  keep_swap false false x y xs = Permᴰ.refl _

  keep-Permᴰ : {xs ys : List A} → Permᴰ xs ys → Permᴰ (keep p xs) (keep p ys)
  keep-Permᴰ Permᴰ.nil = Permᴰ.nil
  keep-Permᴰ (Permᴰ.cons {a} {b} {l₁} {l₂} e d) =
      subst (λ x. Permᴰ (keep p (a ∷ l₁)) (keep p (x ∷ l₂))) e (keep_cons (p a) a (keep-Permᴰ d))
  keep-Permᴰ (Permᴰ.swap {a} {b} {a'} {b'} {l} e f) =
      subst₂ (λ x y. Permᴰ (keep p (a ∷ b ∷ l)) (keep p (y ∷ x ∷ l))) e f
        (keep_swap (p a) (p b) a b (keep p l))
  keep-Permᴰ (Permᴰ.trans d e) = Permᴰ.trans (keep-Permᴰ d) (keep-Permᴰ e)

  pub keep-perm : {xs ys : List A} → Perm xs ys → Perm (keep p xs) (keep p ys)
  keep-perm d = ∥∥₁_map d keep-Permᴰ

module _ {A : Type 0} ⦃e : Comparable A⦄ where
  contains-Permᴰ : (a : A) {xs ys : List A} → Permᴰ xs ys → contains xs a ≡ contains ys a
  contains-Permᴰ a Permᴰ.nil = refl
  contains-Permᴰ a (Permᴰ.cons {a = x} {b = y} {l₁} {l₂} p d) =
      ground (arith, contains-Permᴰ a d, ap (λ z. a == z) p)
  contains-Permᴰ a (Permᴰ.swap {a = x} {b = y} {a'} {b'} {l} p q) =
      ground (arith, ap (λ z. a == z) p, ap (λ z. a == z) q)
  contains-Permᴰ a (Permᴰ.trans d f) = contains-Permᴰ a d ∙ contains-Permᴰ a f

  pub contains-perm : (a : A) {xs ys : List A} → Perm xs ys → contains xs a ≡ contains ys a
  contains-perm a p = ∥∥₁_elim p (Bool-set _ _) (contains-Permᴰ a)

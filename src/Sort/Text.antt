-- ===== src/Sort/Text.antt =====
-- slices.Sort on strings.
use binance_tss_demo.Prelude.{true, false, Bytes, [], ◌∷◌, ◌≡◌, refl, text_less, arith}
use binance_tss_demo.Sort.Total.{IsTotal}

asymmetric : (a b : Bytes) → text_less a b ≡ true → text_less b a ≡ false
asymmetric [] [] h = refl
asymmetric [] (y ∷ ys) h = refl
asymmetric (x ∷ xs) [] h = absurd (cc)
asymmetric (x ∷ xs) (y ∷ ys) h = ground (arith, asymmetric xs ys)

transitive : (a b c : Bytes) → text_less a b ≡ true → text_less b c ≡ true → text_less a c ≡ true
transitive a b [] h k = absurd (cc)
transitive a [] (z ∷ zs) h k = absurd (cc)
transitive [] (y ∷ ys) (z ∷ zs) h k = refl
transitive (x ∷ xs) (y ∷ ys) (z ∷ zs) h k = ground (arith, transitive xs ys zs)

equal_if : (a b : Bytes) → text_less a b ≡ false → text_less b a ≡ false → a ≡ b
equal_if [] [] h k = refl
equal_if [] (y ∷ ys) h k = absurd (cc)
equal_if (x ∷ xs) [] h k = absurd (cc)
equal_if (x ∷ xs) (y ∷ ys) h k = ground (arith, equal_if xs ys)

pub text_less-IsTotal : IsTotal text_less
text_less-IsTotal = record { asymmetric = asymmetric; transitive = transitive; equal_if = equal_if }

-- ===== src/Strconv/ParseInt/Laws.antt =====
-- Numbers are read back from their decimal digits, and what is read fits.
use binance_tss_demo.Prelude.{
  ℕ, zero, suc, ◌+◌, ◌*◌, ◌-◌, ◌/◌, ◌%◌, ◌^◌, ◌≤◌, ◌<◌, ◌≡◌, refl, ◌∙◌, sym, ap, Bool, true, false,
  Bytes, [], ◌∷◌, Option, none, some, ltb, contains, nat_Comparable, ℤ, pos, negsuc, arith,
  Bool-cases, inl, inr, ltb→lt,
}
use binance_tss_demo.Strconv.Decimal.{decimal, digits_before}
use binance_tss_demo.Strconv.ParseInt.{
  next_value, digits_value, number_base, parse_uint, sign, in_range, parse_below, parse_int,
}

next_value-digit : (value d : ℕ) → d < 10 → next_value 10 value (48 + d) ≡ some (value * 10 + d)
unfolding next_value
next_value-digit value d h = ground arith

digits_value-before :
    (fuel n : ℕ) (found : Bytes)
    → n < fuel
    → digits_value 10 0 (digits_before fuel n found) ≡ digits_value 10 n found
unfolding digits_value digits_before
digits_value-before zero n found h = absurd (omega arith)
digits_value-before (suc fuel) n found h = ground (
  arith,
  digits_value-before fuel (n / 10) ((48 + n % 10) ∷ found),
  next_value-digit 0 n,
  next_value-digit (n / 10) (n % 10),
)

-- Two numbers with the same digits are the same.
pub decimal-injective : (m n : ℕ) → decimal m ≡ decimal n → m ≡ n
unfolding decimal digits_value
decimal-injective m n h = same (
    sym (digits_value-before (suc m) m [] (omega arith))
    ∙ ap (digits_value 10 0) h
    ∙ digits_value-before (suc n) n [] (omega arith))
  where
    same : {a b : ℕ} → some a ≡ some b → a ≡ b
    same e = cc

-- A digit that is not zero, in front.
abbrev StartsNonzero : Bytes → Type 0
StartsNonzero [] = ⊥
StartsNonzero (c ∷ cs) = (b'1' ≤ c) × (c ≤ b'9')

digits_before-StartsNonzero :
    (fuel n : ℕ) (found : Bytes) → n < fuel → 0 < n → StartsNonzero (digits_before fuel n found)
unfolding digits_before
digits_before-StartsNonzero zero n found h p = absurd (omega arith)
digits_before-StartsNonzero (suc fuel) n found h p = elim (Bool-cases (ltb n 10)) [
  | inl t ↦ rw (t, digits_before) (ground arith, ground arith)
  | inr f ↦
      rw (f, digits_before)
        (digits_before-StartsNonzero fuel (n / 10) ((48 + n % 10) ∷ found) (ground arith)
          (ground arith))
]

digits_before-no_underscore :
    (fuel n : ℕ) (found : Bytes)
    → contains found b'_' ≡ false
    → contains (digits_before fuel n found) b'_' ≡ false
unfolding digits_before
digits_before-no_underscore zero n found h = h
digits_before-no_underscore (suc fuel) n found h =
    ground (arith, digits_before-no_underscore fuel (n / 10) ((48 + n % 10) ∷ found))

number_base-nonzero : (s : Bytes) → StartsNonzero s → number_base s ≡ (10, s)
unfolding number_base
number_base-nonzero [] h = absurd h
number_base-nonzero (c ∷ cs) h = ground arith

parse_uint-plain :
    (s : Bytes) (n : ℕ)
    → StartsNonzero s
    → contains s b'_' ≡ false
    → digits_value 10 0 s ≡ some n
    → parse_uint s ≡ some n
unfolding parse_uint
parse_uint-plain [] n p u e = absurd p
parse_uint-plain (c ∷ cs) n p u e = rw (number_base-nonzero (c ∷ cs) p, u) e

sign-nonzero : (s : Bytes) → StartsNonzero s → sign s ≡ (false, s)
unfolding sign
sign-nonzero [] p = absurd p
sign-nonzero (c ∷ cs) p = ground arith

in_range-some : (cutoff n : ℕ) → n < cutoff → in_range cutoff false (some n) ≡ some (pos n)
unfolding in_range
in_range-some cutoff n h = ground arith

parse_below-plain :
    (cutoff n : ℕ) (s : Bytes)
    → StartsNonzero s
    → parse_uint s ≡ some n
    → n < cutoff
    → parse_below cutoff s ≡ some (pos n)
unfolding parse_below
parse_below-plain cutoff n s p e h = rw (sign-nonzero s p, e) (in_range-some cutoff n h)

decimal-StartsNonzero : (n : ℕ) → StartsNonzero (decimal (suc n))
unfolding decimal
decimal-StartsNonzero n =
    digits_before-StartsNonzero (suc (suc n)) (suc n) [] (omega arith) (omega arith)

parse_uint-decimal : (n : ℕ) → parse_uint (decimal (suc n)) ≡ some (suc n)
unfolding decimal digits_value
parse_uint-decimal n =
    parse_uint-plain (decimal (suc n)) (suc n) (decimal-StartsNonzero n)
      (digits_before-no_underscore (suc (suc n)) (suc n) [] refl)
      (digits_value-before (suc (suc n)) (suc n) [] (omega arith))

parse_below-zero : (cutoff : ℕ) → 0 < cutoff → parse_below cutoff (decimal 0) ≡ some (pos 0)
unfolding decimal parse_below in_range parse_uint
parse_below-zero cutoff h = ground arith

parse_below-decimal : (cutoff n : ℕ) → n < cutoff → parse_below cutoff (decimal n) ≡ some (pos n)
parse_below-decimal cutoff zero h = parse_below-zero cutoff h
parse_below-decimal cutoff (suc n) h =
    parse_below-plain cutoff (suc n) (decimal (suc n)) (decimal-StartsNonzero n)
      (parse_uint-decimal n) h

-- The decimal text of a number that fits is read as that number.
pub parse_int-decimal :
    (bits n : ℕ) → n < 2 ^ (bits - 1) → parse_int bits (decimal n) ≡ some (pos n)
unfolding parse_int
parse_int-decimal bits n h = parse_below-decimal (2 ^ (bits - 1)) n h

-- What is read lies between -cutoff and cutoff - 1.
abbrev pub Fits : ℕ → ℤ → Type 0
Fits cutoff (pos n) = n < cutoff
Fits cutoff (negsuc n) = n < cutoff

in_range-Fits :
    (cutoff : ℕ) (negative : Bool) (o : Option ℕ) (z : ℤ)
    → 0 < cutoff
    → in_range cutoff negative o ≡ some z
    → Fits cutoff z
unfolding in_range
in_range-Fits cutoff negative none z p h = absurd (cc)
in_range-Fits cutoff false (some n) (pos m) p h = ground arith
in_range-Fits cutoff false (some n) (negsuc m) p h = absurd (ground arith)
in_range-Fits cutoff true (some zero) (pos m) p h = ground arith
in_range-Fits cutoff true (some zero) (negsuc m) p h = absurd (ground arith)
in_range-Fits cutoff true (some (suc n)) (pos m) p h = absurd (ground arith)
in_range-Fits cutoff true (some (suc n)) (negsuc m) p h = ground arith

-- What is read as a number of 16 bits fits into them.
pub parse_int-Fits : (s : Bytes) (z : ℤ) → parse_int 16 s ≡ some z → Fits (2 ^ 15) z
unfolding parse_int parse_below
parse_int-Fits s z h = in_range-Fits (2 ^ 15) (sign s).0 (parse_uint (sign s).1) z (omega arith) h

in_range-none : (cutoff n : ℕ) → cutoff ≤ n → in_range cutoff false (some n) ≡ none
unfolding in_range
in_range-none cutoff n h = ground arith

-- The decimal text of a greater number is refused.
parse_below-too_big :
    (cutoff n : ℕ) → 0 < cutoff → cutoff ≤ n → parse_below cutoff (decimal n) ≡ none
unfolding decimal parse_below
parse_below-too_big cutoff zero p h = absurd (omega arith)
parse_below-too_big cutoff (suc n) p h =
    rw (sign-nonzero (decimal (suc n)) (decimal-StartsNonzero n), parse_uint-decimal n)
      (in_range-none cutoff (suc n) h)

-- The decimal text of a number after a minus.
in_range-minus : (cutoff n : ℕ) → n < cutoff → in_range cutoff true (some (suc n)) ≡ some (negsuc n)
unfolding in_range
in_range-minus cutoff n h = ground arith

pub parse_int-minus : (n : ℕ) → n < 2 ^ 15 → parse_int 16 (b'-' ∷ decimal (suc n)) ≡ some (negsuc n)
unfolding parse_int parse_below sign
parse_int-minus n h = rw (parse_uint-decimal n) (in_range-minus (2 ^ 15) n h)

-- What a decimal text is read as, if it is read at all.
pub parse_int-text :
    (n : ℕ) (z : ℤ) → parse_int 16 (decimal n) ≡ some z → (n < 2 ^ 15) × (z ≡ pos n)
unfolding parse_int
parse_int-text n z h = elim (Bool-cases (ltb n (2 ^ 15))) [
  | inl t ↦
      let small = ltb→lt n (2 ^ 15) t in
      (small, some_same (sym h ∙ parse_below-decimal (2 ^ 15) n small))
  | inr f ↦ absurd (some_none (sym h ∙ parse_below-too_big (2 ^ 15) n (omega arith) (ground arith)))
]
  where
    some_same : {a b : ℤ} → some a ≡ some b → a ≡ b
    some_same e = cc

    some_none : {a : ℤ} → some a ≡ none → ⊥
    some_none e = absurd (cc)

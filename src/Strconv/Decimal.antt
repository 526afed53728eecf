-- ===== src/Strconv/Decimal.antt =====
-- What the code uses of Go's fmt and strconv on decimal numbers (`%d`, `ParseInt` in base 10).
use binance_tss_demo.Prelude.{
  ℕ, zero, suc, ◌+◌, ◌*◌, ◌-◌, ◌/◌, ◌%◌, ◌≡◌, refl, Bool, false, ◌&&◌, Bytes, [], ◌∷◌, Option, none,
  some, leb, ltb, nat_eq, if◌then◌else◌, arith, contains, nat_Comparable,
}

-- Digits from the right, in front of those that were found; a number has at most as many digits as
-- the fuel, which is the number itself and one.
unfoldable pub digits_before : ℕ → ℕ → Bytes → Bytes
digits_before zero n found = found
digits_before (suc fuel) n found =
    let more = digits_before fuel (n / 10) ((48 + n % 10) ∷ found) in
    if ltb n 10 then (48 + n) ∷ found else more

-- `%d` of a number that is not negative.
unfoldable pub decimal : ℕ → Bytes
unfolding digits_before
decimal n = digits_before (suc n) n []

-- `-` is byte 45 and `+` byte 43.
digits_before-no_dash :
    (fuel n : ℕ) (found : Bytes)
    → contains found 45 ≡ false
    → contains (digits_before fuel n found) 45 ≡ false
unfolding digits_before
digits_before-no_dash zero n found h = h
digits_before-no_dash (suc fuel) n found h =
    ground (arith, digits_before-no_dash fuel (n / 10) ((48 + n % 10) ∷ found))

pub decimal-no_dash : (n : ℕ) → contains (decimal n) 45 ≡ false
unfolding decimal
decimal-no_dash n = digits_before-no_dash (suc n) n [] refl

is_digit : ℕ → Bool
is_digit c = leb 48 c && leb c 57

-- The value of some digits after `value`, or nothing at any other byte.
digits_value : ℕ → Bytes → Option ℕ
unfolding is_digit
digits_value value [] = some value
digits_value value (c ∷ cs) =
    let rest = digits_value (value * 10 + (c - 48)) cs in if is_digit c then rest else none

below_128 : Option ℕ → Option ℕ
below_128 none = none
below_128 (some n) = if ltb n 128 then some n else none

unsigned : Bytes → Option ℕ
unfolding digits_value below_128
unsigned [] = none
unsigned (c ∷ cs) = below_128 (digits_value 0 (c ∷ cs))

-- `ParseInt(s, 10, 8)` on a text without `-`: `none` is its error.
unfoldable pub parse_int8 : Bytes → Option ℕ
unfolding unsigned
parse_int8 [] = none
parse_int8 (c ∷ cs) = if nat_eq c 43 then unsigned cs else unsigned (c ∷ cs)

decimal_test : decimal 1307 ≡ 49 ∷ 51 ∷ 48 ∷ 55 ∷ []
unfolding decimal
decimal_test = refl

parse_test : parse_int8 (decimal 127) ≡ some 127
unfolding parse_int8 decimal
parse_test = refl

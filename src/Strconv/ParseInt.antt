-- ===== src/Strconv/ParseInt.antt =====
-- strconv.ParseInt in base 0: the base is that of the text's prefix.
pub mod Laws
use binance_tss_demo.Prelude.{
  ℕ, zero, suc, ◌+◌, ◌*◌, ◌-◌, ◌%◌, ◌^◌, Bool, true, false, not, ◌&&◌, ◌||◌, Bytes, List, [], ◌∷◌,
  Option, none, some, leb, ltb, nat_eq, if◌then◌else◌, contains, nat_Comparable, ℤ, pos, negsuc,
}

-- `lower` of a letter.
abbrev lower : ℕ → ℕ
lower c = if leb b'A' c && leb c b'Z' then c + 32 else c

abbrev is_letter : ℕ → Bool
is_letter c = leb b'a' (lower c) && leb (lower c) b'z'

abbrev is_digit : ℕ → Bool
is_digit c = leb b'0' c && leb c b'9'

digit_of : ℕ → Option ℕ
digit_of c =
    if is_digit c then some (c - b'0') else if is_letter c then some (lower c - b'a' + 10) else none

-- One step of the loop over the digits; an underscore is passed over.
with_digit : ℕ → ℕ → Option ℕ → Option ℕ
with_digit base value none = none
with_digit base value (some d) = if leb base d then none else some (value * base + d)

next_value : ℕ → ℕ → ℕ → Option ℕ
unfolding digit_of with_digit
next_value base value c = if nat_eq c b'_' then some value else with_digit base value (digit_of c)

unfoldable pub digits_value : ℕ → ℕ → Bytes → Option ℕ
unfolding next_value
digits_value base value [] = some value
digits_value base value (c ∷ cs) = elim (next_value base value c) [
  | none ↦ none
  | some v ↦ digits_value base v cs
]

-- The base, and what is left of the text.
after_zero : Bytes → ℕ × Bytes
after_zero (c ∷ d ∷ cs) =
    if nat_eq (lower c) b'b'
    then (2, d ∷ cs)
    else if nat_eq (lower c) b'o'
    then (8, d ∷ cs)
    else if nat_eq (lower c) b'x'
    then (16, d ∷ cs)
    else (8, c ∷ d ∷ cs)
after_zero cs = (8, cs)

number_base : Bytes → ℕ × Bytes
unfolding after_zero
number_base [] = (10, [])
number_base (c ∷ cs) = if nat_eq c b'0' then after_zero cs else (10, c ∷ cs)

-- `underscoreOK`: an underscore stands between digits, or after the prefix and before a digit.
pub data Seen : Type 0 where
  nothing digit underscore other : Seen

under_ok : Bool → Seen → Bytes → Bool
under_ok hex underscore [] = false
under_ok hex _ [] = true
under_ok hex seen (c ∷ cs) =
    let after_digit = under_ok hex digit cs in
    let after_under = under_ok hex underscore cs in
    let after_other = under_ok hex other cs in
    if is_digit c || (hex && leb b'a' (lower c) && leb (lower c) b'f')
    then after_digit
    else if nat_eq c b'_'
    then (elim seen [ digit ↦ after_under | _ ↦ false ])
    else (elim seen [ underscore ↦ false | _ ↦ after_other ])

zero_under_ok : Bytes → Bytes → Bool
unfolding under_ok
zero_under_ok s (c ∷ cs) =
    if nat_eq (lower c) b'b' || nat_eq (lower c) b'o'
    then under_ok false digit cs
    else if nat_eq (lower c) b'x'
    then under_ok true digit cs
    else under_ok false nothing s
zero_under_ok s [] = under_ok false nothing s

underscore_ok : Bytes → Bool
unfolding zero_under_ok
underscore_ok [] = true
underscore_ok (c ∷ cs) =
    if nat_eq c b'0' then zero_under_ok (c ∷ cs) cs else under_ok false nothing (c ∷ cs)

-- `ParseUint`, of any size; `none` is a syntax error.
parse_uint : Bytes → Option ℕ
unfolding digits_value number_base underscore_ok
parse_uint [] = none
parse_uint (c ∷ cs) =
    let (base, digits) = number_base (c ∷ cs) in
    let value = digits_value base 0 digits in
    if contains (c ∷ cs) b'_' && not (underscore_ok (c ∷ cs)) then none else value

-- What fits into a signed number of some bits.
in_range : ℕ → Bool → Option ℕ → Option ℤ
in_range cutoff negative none = none
in_range cutoff false (some n) = if ltb n cutoff then some (pos n) else none
in_range cutoff true (some zero) = some (pos 0)
in_range cutoff true (some (suc n)) = if ltb n cutoff then some (negsuc n) else none

-- If there is a minus in front, and what is left without the sign.
sign : Bytes → Bool × Bytes
sign [] = (false, [])
sign (c ∷ cs) =
    if nat_eq c b'+' then (false, cs) else if nat_eq c b'-' then (true, cs) else (false, c ∷ cs)

parse_below : ℕ → Bytes → Option ℤ
unfolding sign parse_uint in_range
parse_below cutoff s =
    let (negative, digits) = sign s in in_range cutoff negative (parse_uint digits)

-- `ParseInt(s, 0, bits)`: `none` is its error.
unfoldable pub parse_int : ℕ → Bytes → Option ℤ
unfolding parse_below
parse_int bits s = parse_below (2 ^ (bits - 1)) s

-- The conversion `uint16`.
abbrev pub to_uint16 : ℤ → ℕ
to_uint16 (pos n) = n % 2 ^ 16
to_uint16 (negsuc n) = 2 ^ 16 - 1 - n % 2 ^ 16

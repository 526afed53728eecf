-- ===== src/Strconv/Hex.antt =====
-- encoding/hex: EncodeToString and DecodeString.
use binance_tss_demo.Prelude.{
  ℕ, ◌+◌, ◌-◌, ◌*◌, ◌<◌, ◌≡◌, refl, ap, ◌&&◌, Bytes, [], ◌∷◌, Option, none, some, Result, ok, err,
  ltb, leb, if◌then◌else◌, All, arith, codes,
}
use Prim.Native.Nat.{◌/◌, ◌%◌}

abbrev hex_digit : ℕ → ℕ
hex_digit d = if ltb d 10 then b'0' + d else b'a' + (d - 10)

unfoldable pub encode_to_string : Bytes → Bytes
encode_to_string [] = []
encode_to_string (b ∷ bs) = hex_digit (b / 16) ∷ hex_digit (b % 16) ∷ encode_to_string bs

hex_value : ℕ → Option ℕ
hex_value c =
    if leb b'0' c && leb c b'9'
    then some (c - b'0')
    else if leb b'a' c && leb c b'f'
    then some (c - b'a' + 10)
    else if leb b'A' c && leb c b'F'
    then some (c - b'A' + 10)
    else none

byte_of : Option ℕ → Option ℕ → Option ℕ
byte_of (some h) (some l) = some (h * 16 + l)
byte_of (some h) none = none
byte_of none l = none

with_byte : Option ℕ → Result Bytes Bytes → Result Bytes Bytes
with_byte none rest = err (codes "encoding/hex: invalid byte")
with_byte (some b) (ok bs) = ok (b ∷ bs)
with_byte (some b) (err e) = err e

-- The bytes that come with an error are left out.
unfoldable pub decode_string : Bytes → Result Bytes Bytes
unfolding hex_value byte_of with_byte
decode_string [] = ok []
decode_string (c ∷ []) = err (codes "encoding/hex: odd length hex string")
decode_string (c ∷ d ∷ cs) =
    let rest = decode_string cs in with_byte (byte_of (hex_value c) (hex_value d)) rest

hex_value-digit : (d : ℕ) → d < 16 → hex_value (hex_digit d) ≡ some d
unfolding hex_value
hex_value-digit d h = ground arith

-- Bytes are read back from their text.
pub decode_string-encode :
    (bs : Bytes) → All (λ b. b < 256) bs → decode_string (encode_to_string bs) ≡ ok bs
unfolding decode_string encode_to_string byte_of with_byte
decode_string-encode [] h = refl
decode_string-encode (b ∷ bs) (small, rest) =
    rw
      (
        hex_value-digit (b / 16) (omega arith),
        hex_value-digit (b % 16) (omega arith),
        decode_string-encode bs rest,
      )
      (ap (λ n. ok (n ∷ bs)) (omega arith))

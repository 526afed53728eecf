-- ===== src/Comm/Framing.antt =====
-- `ReadStream` and `WriteStream` of tss_util/comm/p2p/util.go: one line for each message.
pub mod Laws
use binance_tss_demo.Prelude.{
  Bool, true, false, ◌&&◌, Bytes, List, [], ◌∷◌, ◌++◌, Result, ok, err, nat_eq, if◌then◌else◌,
  codes,
}

-- `ReadString('\n')`: the bytes up to and with the first newline, and what is left. The stream ends
-- with an error.
in_line : Bytes → Result Bytes (Bytes × Bytes) → Result Bytes (Bytes × Bytes)
in_line start (ok (line, left)) = ok (start ++ line, left)
in_line start (err e) = err e

unfoldable pub read_string : Bytes → Result Bytes (Bytes × Bytes)
unfolding in_line
read_string [] = err (codes "EOF")
read_string (c ∷ cs) =
    let rest = read_string cs in if nat_eq c 10 then ok (c ∷ [], cs) else in_line (c ∷ []) rest

abbrev pub is_empty : Bytes → Bool
is_empty [] = true
is_empty (c ∷ cs) = false

-- `strings.Trim(msg, "\n")`.
unfoldable pub trim_left : Bytes → Bytes
trim_left [] = []
trim_left (c ∷ cs) = let rest = trim_left cs in if nat_eq c 10 then rest else c ∷ cs

unfoldable pub trim_right : Bytes → Bytes
trim_right [] = []
trim_right (c ∷ cs) =
    let rest = trim_right cs in if nat_eq c 10 && is_empty rest then [] else c ∷ rest

read_line : Result Bytes (Bytes × Bytes) → Result Bytes (Bytes × Bytes)
unfolding trim_left trim_right
read_line (err e) = err e
read_line (ok (msg, left)) =
    if is_empty msg
    then err (codes "end of stream reached")
    else ok (trim_right (trim_left msg), left)

-- What is read of a stream, and what is left of it.
unfoldable pub read_stream : Bytes → Result Bytes (Bytes × Bytes)
unfolding read_line read_string
read_stream stream = read_line (read_string stream)

-- What is written to a stream that takes it.
unfoldable pub write_stream : Bytes → Bytes
write_stream msg = msg ++ 10 ∷ []

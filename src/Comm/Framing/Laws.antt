-- ===== src/Comm/Framing/Laws.antt =====
-- Reading back what was written.
use binance_tss_demo.Prelude.{
  ◌≡◌, refl, ap, ◌∙◌, false, Bytes, [], ◌∷◌, ◌++◌, ok, arith, contains, nat_Comparable, ℕ, suc, ◌<◌,
  length, Result, err, Bool-cases, inl, inr, nat_eq,
}
use binance_tss_demo.Comm.Framing.{
  read_string, in_line, trim_left, trim_right, read_line, read_stream, write_stream,
}

read_string-line :
    (msg left : Bytes)
    → contains msg 10 ≡ false
    → read_string (msg ++ (10 ∷ left)) ≡ ok (msg ++ (10 ∷ []), left)
unfolding read_string in_line
read_string-line [] left h = refl
read_string-line (c ∷ cs) left h = ground (arith, read_string-line cs left)

trim_left-line :
    (msg : Bytes)
    → contains msg 10 ≡ false
    → trim_right (trim_left (msg ++ (10 ∷ []))) ≡ trim_right (msg ++ (10 ∷ []))
unfolding trim_left trim_right
trim_left-line [] h = refl
trim_left-line (c ∷ cs) h = ground arith

trim_right-line : (msg : Bytes) → contains msg 10 ≡ false → trim_right (msg ++ (10 ∷ [])) ≡ msg
unfolding trim_right
trim_right-line [] h = refl
trim_right-line (c ∷ cs) h = ground (arith, trim_right-line cs)

write_stream-append : (msg left : Bytes) → write_stream msg ++ left ≡ msg ++ (10 ∷ left)
unfolding write_stream
write_stream-append [] left = refl
write_stream-append (c ∷ cs) left = ap (◌∷◌ c) (write_stream-append cs left)

read_line-line :
    (msg left : Bytes)
    → contains msg 10 ≡ false
    → read_line (ok (msg ++ (10 ∷ []), left)) ≡ ok (msg, left)
unfolding read_line
read_line-line [] left h = ap (λ m. ok (m, left)) (trim_left-line [] h ∙ trim_right-line [] h)
read_line-line (c ∷ cs) left h =
    ap (λ m. ok (m, left)) (trim_left-line (c ∷ cs) h ∙ trim_right-line (c ∷ cs) h)

-- A message without newlines is read back from the front of the stream, and the rest is left.
pub read_stream-write_stream :
    (msg left : Bytes)
    → contains msg 10 ≡ false
    → read_stream (write_stream msg ++ left) ≡ ok (msg, left)
unfolding read_stream
read_stream-write_stream msg left h =
    ap (λ s. read_line (read_string s)) (write_stream-append msg left)
    ∙ ap read_line (read_string-line msg left h)
    ∙ read_line-line msg left h

in_line-shorter :
    (c : ℕ) (cs : Bytes) (r : Result Bytes (Bytes × Bytes)) (line left : Bytes)
    → ((l k : Bytes) → r ≡ ok (l, k) → length k < length cs)
    → in_line (c ∷ []) r ≡ ok (line, left)
    → length left < suc (length cs)
unfolding in_line
in_line-shorter c cs (err e) line left h same = absurd (cc)
in_line-shorter c cs (ok (l, k)) line left h same =
    let equal : k ≡ left = cc in omega (arith, h l k refl, ap length equal)

read_string-shorter :
    (bytes line left : Bytes) → read_string bytes ≡ ok (line, left) → length left < length bytes
unfolding read_string
read_string-shorter [] line left h = absurd (cc)
read_string-shorter (c ∷ cs) line left h = elim (Bool-cases (nat_eq c 10)) [
  | inl e ↦ let equal : cs ≡ left = ground arith in omega (arith, ap length equal)
  | inr e ↦ in_line-shorter c cs (read_string cs) line left (read_string-shorter cs) (ground arith)
]

read_line-left :
    (r : Result Bytes (Bytes × Bytes)) (msg left : Bytes)
    → read_line r ≡ ok (msg, left)
    → (line : Bytes) × (r ≡ ok (line, left))
unfolding read_line
read_line-left (err e) msg left h = absurd (cc)
read_line-left (ok (line, rest)) msg left h = (line, ground arith)

-- What is left of a stream is shorter than the stream.
pub read_stream-shorter :
    (bytes msg left : Bytes) → read_stream bytes ≡ ok (msg, left) → length left < length bytes
unfolding read_stream
read_stream-shorter bytes msg left h =
    let (line, e) = read_line-left (read_string bytes) msg left h in
    read_string-shorter bytes line left e

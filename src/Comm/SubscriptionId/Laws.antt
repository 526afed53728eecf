-- ===== src/Comm/SubscriptionId/Laws.antt =====
-- Which subscription ids can be taken apart again.
use binance_tss_demo.Prelude.{
  ℕ, ◌+◌, ◌%◌, ◌^◌, ◌≤◌, ◌≡◌, refl, ap, ◌∙◌, true, false, Bytes, List, [], ◌∷◌, ◌++◌, ok, err, some,
  arith, contains, nat_Comparable, length, codes,
}
use binance_tss_demo.Message.{MessageType, number}
use binance_tss_demo.Strconv.Decimal.{decimal, decimal-no_dash, parse_int8}
use binance_tss_demo.Comm.SubscriptionId.{
  split, in_front, new_subscription_id, of_number, unwrap_type, unwrap_parts, unwrap,
}

split_last : (part : Bytes) → contains part 45 ≡ false → split part ≡ part ∷ []
unfolding split
split_last [] h = refl
split_last (c ∷ cs) h = ground (arith, split_last cs)

split_first :
    (part rest : Bytes) → contains part 45 ≡ false → split (part ++ (45 ∷ rest)) ≡ part ∷ split rest
unfolding split
split_first [] rest h = refl
split_first (c ∷ cs) rest h = ground (arith, split_first cs rest)

-- The numbers of the message types are read back.
number_back :
    (t : MessageType)
    → (parse_int8 (decimal (number t)) ≡ some (number t)) × (of_number (number t) ≡ t)
unfolding parse_int8 decimal of_number
number_back MessageType.tss_key_gen_msg = (refl, refl)
number_back _ = (refl, refl)

split-new :
    (session_id : Bytes) (t : MessageType) (now : ℕ)
    → contains session_id 45 ≡ false
    → split (new_subscription_id session_id t now)
      ≡ session_id ∷ decimal (number t) ∷ decimal (now % 2 ^ 32) ∷ []
unfolding new_subscription_id
split-new session_id t now h =
    split_first session_id (decimal (number t) ++ (45 ∷ decimal (now % 2 ^ 32))) h
    ∙ ap (◌∷◌ session_id)
        (split_first (decimal (number t)) (decimal (now % 2 ^ 32)) (decimal-no_dash (number t)))
    ∙ ap (λ ps. session_id ∷ decimal (number t) ∷ ps)
        (split_last (decimal (now % 2 ^ 32)) (decimal-no_dash (now % 2 ^ 32)))

unwrap_number :
    (session_id id : Bytes) (t : MessageType)
    → unwrap_type session_id (some (number t)) id ≡ ok (session_id, of_number (number t), id)
unfolding unwrap_type
unwrap_number session_id id MessageType.unknown = refl
unwrap_number session_id id _ = refl

plain :
    (session_id : Bytes) (t : MessageType) (now : ℕ)
    → contains session_id 45 ≡ false
    → unwrap (new_subscription_id session_id t now) ≡ ok (session_id, t, decimal (now % 2 ^ 32))
unfolding unwrap
plain session_id t now h =
    ap unwrap_parts (split-new session_id t now h)
    ∙ ap (λ n. unwrap_type session_id n (decimal (now % 2 ^ 32))) (number_back t).0
    ∙ unwrap_number session_id (decimal (now % 2 ^ 32)) t
    ∙ ap (λ u. ok (session_id, u, decimal (now % 2 ^ 32))) (number_back t).1

length-in_front :
    (c : ℕ) (parts : List Bytes) → 1 ≤ length parts → length (in_front c parts) ≡ length parts
unfolding in_front
length-in_front c [] h = absurd (omega arith)
length-in_front c (part ∷ parts) h = refl

split_some : (s : Bytes) → 1 ≤ length (split s)
unfolding split
split_some [] = omega arith
split_some (d ∷ ds) = ground (arith, split_some ds, length-in_front d (split ds))

split_dashed : (s : Bytes) → contains s 45 ≡ true → 2 ≤ length (split s)
unfolding split
split_dashed [] h = absurd (cc)
split_dashed (c ∷ cs) h =
    ground (arith, split_dashed cs, split_some cs, length-in_front c (split cs))

length-split : (a b : Bytes) → length (split a) + length (split b) ≤ length (split (a ++ (45 ∷ b)))
unfolding split
length-split [] b = omega arith
length-split (c ∷ cs) b = ground (
  arith,
  length-split cs b,
  split_some cs,
  split_some (cs ++ (45 ∷ b)),
  length-in_front c (split cs),
  length-in_front c (split (cs ++ (45 ∷ b))),
)

unwrap_parts_many :
    (parts : List Bytes) → 4 ≤ length parts → (e : Bytes) × (unwrap_parts parts ≡ err e)
unfolding unwrap_parts
unwrap_parts_many [] h = absurd (omega arith)
unwrap_parts_many (a ∷ []) h = absurd (omega arith)
unwrap_parts_many (a ∷ b ∷ []) h = absurd (omega arith)
unwrap_parts_many (a ∷ b ∷ c ∷ []) h = absurd (omega arith)
unwrap_parts_many (a ∷ b ∷ c ∷ d ∷ rest) h = (codes "invalid subscriptionID", refl)

dashed :
    (session_id : Bytes) (t : MessageType) (now : ℕ)
    → contains session_id 45 ≡ true
    → (e : Bytes) × (unwrap (new_subscription_id session_id t now) ≡ err e)
unfolding unwrap new_subscription_id
dashed session_id t now h =
    let stamp = decimal (now % 2 ^ 32) in
    let kind = decimal (number t) in
    unwrap_parts_many (split (session_id ++ (45 ∷ (kind ++ (45 ∷ stamp))))) (
      omega (
        arith,
        split_dashed session_id h,
        length-split session_id (kind ++ (45 ∷ stamp)),
        ap length (split_first kind stamp (decimal-no_dash (number t))),
        ap length (split_last stamp (decimal-no_dash (now % 2 ^ 32))),
      ))

-- The id of a session without `-` in its name is taken apart into what it was made of; that of any
-- other session is not taken apart at all.
pub unwrap-new :
    (session_id : Bytes) (t : MessageType) (now : ℕ)
    → (contains session_id 45 ≡ false
        → unwrap (new_subscription_id session_id t now)
          ≡ ok (session_id, t, decimal (now % 2 ^ 32)))
      × (contains session_id 45 ≡ true
          → (e : Bytes) × (unwrap (new_subscription_id session_id t now) ≡ err e))
unwrap-new session_id t now = (plain session_id t now, dashed session_id t now)

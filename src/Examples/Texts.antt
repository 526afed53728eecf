-- ===== src/Examples/Texts.antt =====
-- Text forms: for key shares of one kind, which are written as five numbers (no other is written), and
-- for start parameters.
use binance_tss_demo.Prelude.{
  ◌≡◌, refl, sym, ap, ◌∙◌, ◌++◌, zero, suc, Option, none, some, Bytes, List, [], ◌∷◌, Result, ok,
  err, ℤ, pos, negsuc, ℕ,
}
use mathlib.Core.List.{append_assoc, append-nil}
use binance_tss_demo.Peers.{PeerId}
use binance_tss_demo.Process.{Error, other}
use binance_tss_demo.Frost.Resharing.{StartParams, ParamsJson}
use binance_tss_demo.Frost.Resharing.Shares.{IsParamsJson}
use binance_tss_demo.Storage.{Json, IsJson}
use binance_tss_demo.Keyshare.Frost.{Curve, FrostKeyshareStore}
use binance_tss_demo.Keyshare.Stored.{IsCurve}

abbrev text_of :
    (id : Bytes) (key_threshold : ℤ) (private_share public_key chain_key : Bytes)
    (verification_shares : List (Bytes × Bytes)) (threshold : ℤ) (peers : List PeerId)
    → Result Bytes Bytes
text_of [] (pos a) (n ∷ []) [] [] ((c ∷ [], m ∷ []) ∷ []) (pos b) [] = ok (a ∷ n ∷ c ∷ m ∷ b ∷ [])
text_of i t p g h v u w = err []

abbrev of_text : Bytes → Result Bytes FrostKeyshareStore
of_text (a ∷ n ∷ c ∷ m ∷ b ∷ []) = ok (record {
  key = record {
    id = [];
    threshold = pos a;
    private_share = n ∷ [];
    public_key = [];
    chain_key = [];
    verification_shares = (c ∷ [], m ∷ []) ∷ [];
  };
  threshold = pos b;
  peers = [];
})
of_text bs = err bs

same_text : {b c : Bytes} → ◌≡◌ {A = Result Bytes Bytes} (ok b) (ok c) → b ≡ c
same_text h = cc

text_of-round :
    (id : Bytes) (key_threshold : ℤ) (private_share public_key chain_key : Bytes)
    (verification_shares : List (Bytes × Bytes)) (threshold : ℤ) (peers : List PeerId)
    (text : Bytes)
    → text_of id key_threshold private_share public_key chain_key verification_shares threshold
        peers
      ≡ ok text
    → of_text text
      ≡ ok (record {
        key = record {
          id = id;
          threshold = key_threshold;
          private_share = private_share;
          public_key = public_key;
          chain_key = chain_key;
          verification_shares = verification_shares;
        };
        threshold = threshold;
        peers = peers;
      })
text_of-round [] (pos a) (n ∷ []) [] [] ((c ∷ [], m ∷ []) ∷ []) (pos b) [] text q =
    rw (sym (same_text q)) refl
text_of-round (x ∷ xs) t p g h v u w text e = absurd (cc)
text_of-round [] (negsuc a) p g h v u w text e = absurd (cc)
text_of-round [] (pos a) [] g h v u w text e = absurd (cc)
text_of-round [] (pos a) (n ∷ k ∷ l) g h v u w text e = absurd (cc)
text_of-round [] (pos a) (n ∷ []) (x ∷ xs) h v u w text e = absurd (cc)
text_of-round [] (pos a) (n ∷ []) [] (x ∷ xs) v u w text e = absurd (cc)
text_of-round [] (pos a) (n ∷ []) [] [] [] u w text e = absurd (cc)
text_of-round [] (pos a) (n ∷ []) [] [] (([], q) ∷ r) u w text e = absurd (cc)
text_of-round [] (pos a) (n ∷ []) [] [] ((c ∷ d ∷ z, q) ∷ r) u w text e = absurd (cc)
text_of-round [] (pos a) (n ∷ []) [] [] ((c ∷ [], []) ∷ r) u w text e = absurd (cc)
text_of-round [] (pos a) (n ∷ []) [] [] ((c ∷ [], m ∷ k ∷ l) ∷ r) u w text e = absurd (cc)
text_of-round [] (pos a) (n ∷ []) [] [] ((c ∷ [], m ∷ []) ∷ y ∷ r) u w text e = absurd (cc)
text_of-round [] (pos a) (n ∷ []) [] [] ((c ∷ [], m ∷ []) ∷ []) (negsuc b) w text e = absurd (cc)
text_of-round [] (pos a) (n ∷ []) [] [] ((c ∷ [], m ∷ []) ∷ []) (pos b) (x ∷ xs) text e =
    absurd (cc)

abbrev pub numbers : Json FrostKeyshareStore
numbers = record {
  marshal = λ s.
      text_of s.key.id s.key.threshold s.key.private_share s.key.public_key s.key.chain_key
        s.key.verification_shares s.threshold s.peers;
  unmarshal = of_text;
}

pub numbers-IsJson : IsJson numbers
numbers-IsJson = record {
  round_trip = λ s text e.
      text_of-round s.key.id s.key.threshold s.key.private_share s.key.public_key s.key.chain_key
        s.key.verification_shares s.threshold s.peers text e;
}

abbrev one_byte : Bytes → Result Bytes ℕ
one_byte (n ∷ []) = ok n
one_byte bs = err bs

-- Scalars and points are numbers, of one byte each.
abbrev pub bytes_curve : Curve
bytes_curve = record {
  Scalar = ℕ;
  Point = ℕ;
  zero_scalar = 0;
  new_point = 0;
  marshal_scalar = λ n. ok (n ∷ []);
  unmarshal_scalar = one_byte;
  marshal_point = λ n. ok (n ∷ []);
  unmarshal_point = one_byte;
}

byte_round :
    (n : ℕ) (b : Bytes) → ◌≡◌ {A = Result Bytes Bytes} (ok (n ∷ [])) (ok b) → one_byte b ≡ ok n
byte_round n b e = rw (sym (same_text e)) refl

pub bytes_curve-IsCurve : IsCurve bytes_curve
bytes_curve-IsCurve = record { scalar_round = byte_round; point_round = byte_round }

-- Bytes before a mark: each is written as its successor, and the mark is 0.
abbrev marked : Bytes → Bytes → Bytes
marked [] rest = 0 ∷ rest
marked (b ∷ bs) rest = suc b ∷ marked bs rest

abbrev shares_text : List (Bytes × ℕ) → Bytes
shares_text [] = []
shares_text ((id, n) ∷ shares) = marked id (n ∷ shares_text shares)

abbrev shares_of : Bytes → Bytes → List (Bytes × ℕ)
shares_of read [] = []
shares_of read (zero ∷ []) = []
shares_of read (zero ∷ n ∷ rest) = (read, n) ∷ shares_of [] rest
shares_of read (suc b ∷ rest) = shares_of (read ++ b ∷ []) rest

shares_of-marked :
    (read id rest : Bytes) (n : ℕ)
    → shares_of read (marked id (n ∷ rest)) ≡ (read ++ id, n) ∷ shares_of [] rest
shares_of-marked read [] rest n = rw (append-nil read) refl
shares_of-marked read (b ∷ id) rest n =
    shares_of-marked (read ++ b ∷ []) id rest n
    ∙ ap (λ bs. (bs, n) ∷ shares_of [] rest) (append_assoc read (b ∷ []) id)

shares_of-text : (shares : List (Bytes × ℕ)) → shares_of [] (shares_text shares) ≡ shares
shares_of-text [] = refl
shares_of-text ((id, n) ∷ shares) =
    shares_of-marked [] id (shares_text shares) n
    ∙ ap (λ rest. (id, n) ∷ rest) (shares_of-text shares)

abbrev option_text : Option (List (Bytes × ℕ)) → Bytes
option_text none = []
option_text (some shares) = 1 ∷ shares_text shares

abbrev option_of : Bytes → Option (List (Bytes × ℕ))
option_of [] = none
option_of (b ∷ rest) = some (shares_of [] rest)

abbrev params_of : Bytes → Bytes → Result Error (StartParams bytes_curve)
params_of read [] = err (other [])
params_of read (zero ∷ rest) =
    ok (record { public_key = read; verification_shares = option_of rest })
params_of read (suc b ∷ rest) = params_of (read ++ b ∷ []) rest

params_of-marked :
    (read key rest : Bytes)
    → params_of read (marked key rest)
      ≡ ok (record { public_key = read ++ key; verification_shares = option_of rest })
params_of-marked read [] rest = rw (append-nil read) refl
params_of-marked read (b ∷ key) rest =
    rw (sym (append_assoc read (b ∷ []) key)) (params_of-marked (read ++ b ∷ []) key rest)

option_round : (o : Option (List (Bytes × ℕ))) → option_of (option_text o) ≡ o
option_round none = refl
option_round (some shares) = ap some (shares_of-text shares)

abbrev pub params_text : ParamsJson bytes_curve
params_text = record {
  marshal = λ p. marked p.public_key (option_text p.verification_shares);
  unmarshal = params_of [];
}

pub params_text-IsParamsJson : IsParamsJson params_text
params_text-IsParamsJson = record {
  round_trip = λ p.
      params_of-marked [] p.public_key (option_text p.verification_shares)
      ∙ rw (option_round p.verification_shares) refl;
}

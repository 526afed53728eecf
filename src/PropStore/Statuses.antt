-- ===== src/PropStore/Statuses.antt =====
-- Statuses are kept apart by their keys.
use binance_tss_demo.Prelude.{
  ℕ, zero, suc, ◌+◌, ◌/◌, ◌%◌, ◌≡◌, refl, ap, false, Bytes, [], ◌∷◌, ◌++◌, none, ok, contains,
  bytes_Comparable, nat_Comparable, arith, codes,
}
use binance_tss_demo.Strconv.Decimal.{decimal, digits_before}
use binance_tss_demo.Strconv.ParseInt.Laws.{decimal-injective}
use binance_tss_demo.PropStore.{
  Database, PropStatus, prop_key, status_of, store_prop_status, prop_status,
}

-- A write without an error is read back, and other keys are read as before.
pub record IsDatabase {Db : Type 0} (database : Database Db) : Type 0 where
  pub get-set :
      (key value : Bytes) (db : Db)
      → (database.set_by_key key value db).1 ≡ none
      → database.get_by_key key (database.set_by_key key value db).0 ≡ ok value
  pub get-set_other :
      (key other value : Bytes) (db : Db)
      → (database.set_by_key key value db).1 ≡ none
      → ¬ (other ≡ key)
      → database.get_by_key other (database.set_by_key key value db).0
        ≡ database.get_by_key other db

digits_before-no_colon :
    (fuel n : ℕ) (found : Bytes)
    → contains found b':' ≡ false
    → contains (digits_before fuel n found) b':' ≡ false
unfolding digits_before
digits_before-no_colon zero n found h = h
digits_before-no_colon (suc fuel) n found h =
    ground (arith, digits_before-no_colon fuel (n / 10) ((48 + n % 10) ∷ found))

decimal-no_colon : (n : ℕ) → contains (decimal n) b':' ≡ false
unfolding decimal
decimal-no_colon n = digits_before-no_colon (suc n) n [] refl

cons-same : {x y : ℕ} {xs ys : Bytes} → ◌≡◌ {A = Bytes} (x ∷ xs) (y ∷ ys) → (x ≡ y) × (xs ≡ ys)
cons-same e = (cc, cc)

-- Where the first colon is, a text is taken apart in one way.
colon-parts :
    (a b c d : Bytes)
    → contains a b':' ≡ false
    → contains c b':' ≡ false
    → a ++ (b':' ∷ b) ≡ c ++ (b':' ∷ d)
    → (a ≡ c) × (b ≡ d)
colon-parts [] b [] d p q h = (refl, (cons-same h).1)
colon-parts [] b (y ∷ ys) d p q h = absurd (ground (arith, (cons-same h).0))
colon-parts (x ∷ xs) b [] d p q h = absurd (ground (arith, (cons-same h).0))
colon-parts (x ∷ xs) b (y ∷ ys) d p q h =
    let (same, rest) = colon-parts xs b ys d (ground arith) (ground arith) (cons-same h).1 in
    let head = (cons-same h).0 in (cc, rest)

after_prefix : (prefix : Bytes) {a b : Bytes} → prefix ++ a ≡ prefix ++ b → a ≡ b
after_prefix [] h = h
after_prefix (c ∷ cs) h = after_prefix cs (cons-same h).1

prop_key-injective :
    (s s' d d' n n' : ℕ) → prop_key s d n ≡ prop_key s' d' n' → (s ≡ s') × (d ≡ d') × (n ≡ n')
unfolding prop_key
prop_key-injective s s' d d' n n' h =
    let (sources, rest) =
      colon-parts (decimal s) _ (decimal s') _ (decimal-no_colon s) (decimal-no_colon s')
        (after_prefix (codes "source:") h) in
    let (destinations, last) =
      colon-parts (decimal d) _ (decimal d') _ (decimal-no_colon d) (decimal-no_colon d')
        (after_prefix (codes "destination:") rest) in
    (
      decimal-injective s s' sources,
      decimal-injective d d' destinations,
      decimal-injective n n' (after_prefix (codes "depositNonce:") last),
    )

-- Once a status was stored without an error, it is the status of its proposal, and that of any other
-- proposal is what it was, if the database reads what was written.
pub stored-statuses :
    {Db : Type 0} (database : Database Db) (source destination deposit_nonce : ℕ)
    (status : PropStatus) (db : Db)
    → IsDatabase database
    → (store_prop_status database source destination deposit_nonce status db).1 ≡ none
    → let db' = (store_prop_status database source destination deposit_nonce status db).0 in
      (prop_status database source destination deposit_nonce db' ≡ (status, none))
      × ((s d n : ℕ)
          → ¬ ((s ≡ source) × (d ≡ destination) × (n ≡ deposit_nonce))
          → prop_status database s d n db' ≡ prop_status database s d n db)
unfolding store_prop_status prop_status status_of
stored-statuses database source destination deposit_nonce status db is stored = (
  rw (is.get-set (prop_key source destination deposit_nonce) status db stored) refl,
  λ s d n apart. ap status_of (
      is.get-set_other (prop_key source destination deposit_nonce) (prop_key s d n) status db stored
        (λ h. apart (prop_key-injective s source d destination n deposit_nonce h))),
)

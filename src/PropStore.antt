-- ===== src/PropStore.antt =====
-- tss_util/store/propstore.go: the statuses of proposals, in a database.
pub mod Statuses
use binance_tss_demo.Prelude.{
  ℕ, Bytes, List, [], ◌∷◌, ◌++◌, Option, none, some, Result, ok, err, codes,
}
use binance_tss_demo.Strconv.Decimal.{decimal}

-- `PropStatus`, as its text; these are the ones that are named.
abbrev pub PropStatus : Type 0
PropStatus = Bytes

unfoldable pub missing_prop : PropStatus
missing_prop = codes "missing"

-- The errors of the database that are told apart: leveldb's ErrNotFound, and others.
pub data DbError : Type 0 where
  not_found : DbError
  db_error : Bytes → DbError

-- sygma-core's KeyValueReaderWriter, which the store is made of.
pub record Database (Db : Type 0) : Type 0 where
  pub get_by_key : Bytes → Db → Result DbError Bytes
  pub set_by_key : Bytes → Bytes → Db → Db × Option DbError

-- The key of a proposal, by its source, its destination and its nonce: the format KEY.
unfoldable pub prop_key : ℕ → ℕ → ℕ → Bytes
prop_key source destination deposit_nonce =
    codes "source:"
    ++ (decimal source
        ++ (codes ":destination:"
            ++ (decimal destination ++ (codes ":depositNonce:" ++ decimal deposit_nonce))))

-- What PropStatus makes of what the database returns.
unfoldable pub status_of : Result DbError Bytes → PropStatus × Option DbError
unfolding missing_prop
status_of (err not_found) = (missing_prop, none)
status_of (err (db_error e)) = (missing_prop, some (db_error e))
status_of (ok v) = (v, none)

module _ {Db : Type 0} (database : Database Db) where
  unfoldable pub store_prop_status : ℕ → ℕ → ℕ → PropStatus → Db → Db × Option DbError
  unfolding prop_key
  store_prop_status source destination deposit_nonce status db =
      database.set_by_key (prop_key source destination deposit_nonce) status db

  unfoldable pub prop_status : ℕ → ℕ → ℕ → Db → PropStatus × Option DbError
  unfolding prop_key status_of
  prop_status source destination deposit_nonce db =
      status_of (database.get_by_key (prop_key source destination deposit_nonce) db)

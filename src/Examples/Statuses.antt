-- ===== src/Examples/Statuses.antt =====
-- Statuses of proposals in a database that is a map.
use binance_tss_demo.Prelude.{
  ℕ, ◌≡◌, refl, ap, Bytes, List, [], Option, none, some, Result, ok, err, codes, bytes_Comparable,
  arith,
}
use binance_tss_demo.Prelude.Maps.{lookup, insert, lookup-insert}
use binance_tss_demo.PropStore.{
  Database, DbError, not_found, PropStatus, prop_status, store_prop_status, missing_prop, status_of,
}
use binance_tss_demo.PropStore.Statuses.{IsDatabase, stored-statuses}

abbrev Entries : Type 0
Entries = List (Bytes × Bytes)

abbrev found : Option Bytes → Result DbError Bytes
found none = err not_found
found (some v) = ok v

abbrev entries : Database Entries
entries = record {
  get_by_key = λ key db. found (lookup key db);
  set_by_key = λ key value db. (insert key value db, none);
}

insert-same : (key value : Bytes) (db : Entries) → lookup key (insert key value db) ≡ some value
insert-same key value db =
    ground (arith, lookup-insert key key value db, bytes_Comparable.equal_iff key key)

insert-other :
    (key other value : Bytes) (db : Entries)
    → ¬ (other ≡ key)
    → lookup other (insert key value db) ≡ lookup other db
insert-other key other value db apart =
    ground (arith, lookup-insert key other value db, bytes_Comparable.equal_iff other key)

entries-IsDatabase : IsDatabase entries
entries-IsDatabase = record {
  get-set = λ key value db stored. ap found (insert-same key value db);
  get-set_other =
      λ key other value db stored apart. ap found (insert-other key other value db apart);
}

-- Proposal 1, 2, 3 has no status at first.
missing_test : prop_status entries 1 2 3 [] ≡ (missing_prop, none)
unfolding prop_status status_of
missing_test = refl

abbrev executed : PropStatus
executed = codes "executed"

abbrev after : Entries
after = (store_prop_status entries 1 2 3 executed []).0

stored_test : (store_prop_status entries 1 2 3 executed []).1 ≡ none
unfolding store_prop_status
stored_test = refl

stored-statuses_example :
    (prop_status entries 1 2 3 after ≡ (executed, none))
    × ((s d n : ℕ)
        → ¬ ((s ≡ 1) × (d ≡ 2) × (n ≡ 3))
        → prop_status entries s d n after ≡ prop_status entries s d n [])
stored-statuses_example = stored-statuses entries 1 2 3 executed [] entries-IsDatabase stored_test

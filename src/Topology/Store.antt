-- ===== src/Topology/Store.antt =====
-- tss_util/topology/store.go. Each method holds the lock until it returns.
use binance_tss_demo.Prelude.{Bytes, Option, Result, ◌>>=◌}
use binance_tss_demo.Topology.{NetworkTopology}
use binance_tss_demo.Storage.{Json, File, Disk, store_text, read_file}

module _ (json : Json NetworkTopology) where
  unfoldable pub store_topology : Disk → NetworkTopology → File → File × Option Bytes
  store_topology disk topology file = store_text disk (json.marshal topology) file

  unfoldable pub stored_topology : File → Result Bytes NetworkTopology
  stored_topology file = do text ← read_file file; json.unmarshal text

-- ===== src/Examples/Configs.antt =====
-- A configuration, a topology and the files of the stores.
use binance_tss_demo.Prelude.{
  List, ℕ, ◌∷◌, All, ◌++◌, nat_eq, ◌≡◌, refl, ap, Bytes, [], ◌∷◌, none, some, Result, ok, err,
  codes, pos, map, ◌<◌, ◌↔◌,
}
use binance_tss_demo.Config.Relayer.{
  RawRelayerConfig, RelayerConfig, ConfigTexts, new_relayer_config,
}
use binance_tss_demo.Config.Relayer.Ports.{PortOf, new_relayer_config-PortOf}
use binance_tss_demo.Strconv.ParseInt.{parse_int, to_uint16}
use binance_tss_demo.Topology.{AddrInfo, RawTopology, NetworkTopology, process_raw_topology}
use binance_tss_demo.Topology.Accepted.{read_all, process_raw_topology-accepts}
use binance_tss_demo.Storage.{Disk, store_text}
use binance_tss_demo.Keyshare.Frost.{FrostKeyshare, store_keyshare, get_keyshare, keyshare_text}
use binance_tss_demo.Keyshare.Stored.{IsLeft, get_keyshare-store_keyshare, store_keyshare-Left}
use binance_tss_demo.Config.Env.{nothing, entry, text, mount_map, load_env}
use binance_tss_demo.Config.Env.Mounted.{Variable, mount_all, IsFound, mount_all-IsFound}
use binance_tss_demo.Config.Chains.{
  Floats, float, string, Chain, Config, RawConfig, ConfigLib, merged_chain, merged_chains,
  process_raw_config,
}
use binance_tss_demo.Config.Chains.Merged.{AreMerged, process_raw_config-merged}
use binance_tss_demo.Examples.World.{p1, p2}
use binance_tss_demo.Examples.Texts.{numbers, numbers-IsJson, bytes_curve, bytes_curve-IsCurve}

-- Texts that are read as 0.
abbrev zero_texts : ConfigTexts
zero_texts = record { parse_level = λ s. some (pos 0); parse_duration = λ s. some (pos 0) }

-- The health port is given as a negative number.
abbrev raw : RawRelayerConfig
raw = record {
  open_telemetry_collector_url = [];
  log_level = codes "info";
  log_file = [];
  health_port = codes "-1";
  env = [];
  id = [];
  mpc_config = record {
    keyshare_path = [];
    frost_keyshare_path = [];
    key = codes "k";
    port = codes "9000";
    topology_configuration = record { path = codes "t" };
    comm_health_check_interval = codes "5m";
  };
  bully_config = record {
    ping_wait_time = [];
    ping_back_off = [];
    ping_interval = [];
    election_wait_time = [];
    bully_wait_time = [];
  };
  uploader_config = record { url = []; auth_token = []; max_retries = 5; max_elapsed_time = pos 0 };
}

abbrev taken : RelayerConfig
taken = record {
  open_telemetry_collector_url = [];
  log_level = pos 0;
  log_file = [];
  health_port = 65535;
  env = [];
  id = [];
  mpc_config = record {
    topology_configuration = record { path = codes "t" };
    port = 9000;
    keyshare_path = [];
    frost_keyshare_path = [];
    key = codes "k";
    comm_health_check_interval = pos 0;
  };
  bully_config = record {
    ping_wait_time = pos 0;
    ping_back_off = pos 0;
    ping_interval = pos 0;
    election_wait_time = pos 0;
    bully_wait_time = pos 0;
  };
  uploader_config = record { url = []; auth_token = []; max_retries = 5; max_elapsed_time = pos 0 };
}

taken_test : new_relayer_config zero_texts raw ≡ ok taken
unfolding new_relayer_config parse_int
taken_test = refl

new_relayer_config-PortOf_example :
    PortOf raw.health_port taken.health_port × PortOf raw.mpc_config.port taken.mpc_config.port
new_relayer_config-PortOf_example = new_relayer_config-PortOf zero_texts raw taken taken_test

-- An address is the id of its peer.
abbrev addr_info : Bytes → Result Bytes AddrInfo
addr_info [] = err []
addr_info (b ∷ bs) = ok (record { id = b ∷ bs; addrs = [] })

abbrev raw_topology : RawTopology
raw_topology = record {
  peers = record { peer_address = p1 } ∷ record { peer_address = p2 } ∷ [];
  threshold = codes "0x2";
}

abbrev topology : NetworkTopology
topology = record {
  peers = record { id = p1; addrs = [] } ∷ record { id = p2; addrs = [] } ∷ [];
  threshold = 2;
}

topology_test : process_raw_topology addr_info raw_topology ≡ ok topology
unfolding process_raw_topology parse_int
topology_test = refl

process_raw_topology-accepts_example :
    (process_raw_topology addr_info raw_topology ≡ ok topology) ↔ (
      (read_all addr_info raw_topology.peers ≡ map ok topology.peers)
      × (parse_int 64 raw_topology.threshold ≡ some (pos topology.threshold))
      × (0 < topology.threshold))
process_raw_topology-accepts_example = process_raw_topology-accepts addr_info raw_topology topology

abbrev fine : Disk
fine = record { open_error = none; write_error = none }

abbrev full : Disk
full = record { open_error = none; write_error = some (2, codes "full") }

abbrev share : FrostKeyshare bytes_curve
share = record {
  key = record {
    id = [];
    threshold = pos 1;
    private_share = 7;
    public_key = [];
    chain_key = [];
    verification_shares = (p1, 9) ∷ [];
  };
  threshold = pos 1;
  peers = [];
}

stored_test : (store_keyshare bytes_curve numbers fine share none).1 ≡ none
unfolding store_keyshare store_text
stored_test = refl

get_keyshare-store_keyshare_example :
    get_keyshare bytes_curve numbers (store_keyshare bytes_curve numbers fine share none).0
    ≡ ok share
get_keyshare-store_keyshare_example =
    get_keyshare-store_keyshare bytes_curve numbers fine share none bytes_curve-IsCurve
      numbers-IsJson stored_test

-- An old share is gone when the disk is full.
lost_test :
    store_keyshare bytes_curve numbers full share (some (codes "old"))
    ≡ (some (1 ∷ 7 ∷ []), some (codes "full"))
unfolding store_keyshare store_text
lost_test = refl

store_keyshare-Left_example :
    IsLeft full.open_error
      (keyshare_text bytes_curve numbers share)
      (some (codes "old"))
      (store_keyshare bytes_curve numbers full share (some (codes "old"))).0
store_keyshare-Left_example =
    store_keyshare-Left bytes_curve numbers full share (some (codes "old")) (codes "full")
      (ap (λ r. r.1) lost_test)

abbrev variables : List Variable
variables =
    (codes "SYG", codes "RELAYER" ∷ codes "ID" ∷ [], codes "a")
    ∷ (codes "SYG", codes "RELAYER" ∷ codes "ENV" ∷ [], codes "b")
    ∷ (codes "SYG", codes "CHAINS" ∷ [], codes "c")
    ∷ []

mount_all-IsFound_example : All (IsFound (mount_all variables nothing)) variables
mount_all-IsFound_example =
    mount_all-IsFound variables
      (((refl, refl), ((refl, refl), tt)), ((((refl, refl), tt), (tt, tt))))

-- The name may hold SYG anywhere, and so may the text.
env_test :
    load_env nothing (codes "A=SYG" ∷ codes "B=x" ∷ [])
    ≡ some (entry (codes "A") (text (codes "SYG")) nothing)
unfolding load_env mount_map
env_test = refl

-- A float64 is a number here, and a merge puts the chain before what it is merged with.
abbrev whole : Floats
whole = record { Float = ℕ; of_int = to_uint16; equal = nat_eq }

abbrev lib : ConfigLib whole
lib = record { set_defaults = λ raw. ok raw; merge = λ a b. ok (a ++ b) }

abbrev a_chain : Chain whole
a_chain = (codes "id", float 0) ∷ (codes "type", string (codes "evm")) ∷ []

abbrev shared_chain : Chain whole
shared_chain = (codes "id", float 0) ∷ (codes "name", string (codes "n")) ∷ []

abbrev raw_config : RawConfig whole
raw_config = record { relayer_config = raw; chain_configs = a_chain ∷ [] }

abbrev shared : Config whole
shared = record { relayer_config = taken; chain_configs = shared_chain ∷ [] }

abbrev processed : Config whole
processed = record { relayer_config = taken; chain_configs = (a_chain ++ shared_chain) ∷ [] }

-- The id 0 of a JSON text is taken.
processed_test : process_raw_config whole lib zero_texts raw_config (some shared) ≡ ok processed
unfolding process_raw_config merged_chains merged_chain new_relayer_config parse_int
processed_test = refl

process_raw_config-merged_example :
    (full : RawConfig whole) × (lib.set_defaults raw_config ≡ ok full)
    × (new_relayer_config zero_texts full.relayer_config ≡ ok processed.relayer_config)
    × AreMerged whole lib shared.chain_configs full.chain_configs processed.chain_configs
process_raw_config-merged_example =
    process_raw_config-merged whole lib zero_texts raw_config shared processed processed_test

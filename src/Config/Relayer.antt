-- ===== src/Config/Relayer.antt =====
-- tss_util/tss_config/relayer/config.go.
pub mod Ports
use binance_tss_demo.Prelude.{
  ℕ, Bool, true, false, Bytes, [], ◌∷◌, Option, none, some, Result, ok, err, ◌>>=◌, if◌then◌else◌,
  ◌==◌, bytes_Comparable, codes, ℤ,
}
use binance_tss_demo.Strconv.ParseInt.{parse_int, to_uint16}

pub record TopologyConfiguration : Type 0 where
  pub path : Bytes

-- Durations are in nanoseconds.
pub record UploaderConfig : Type 0 where
  pub url : Bytes
  pub auth_token : Bytes
  pub max_retries : ℕ
  pub max_elapsed_time : ℤ

pub record BullyConfig : Type 0 where
  pub ping_wait_time : ℤ
  pub ping_back_off : ℤ
  pub ping_interval : ℤ
  pub election_wait_time : ℤ
  pub bully_wait_time : ℤ

pub record MpcRelayerConfig : Type 0 where
  pub topology_configuration : TopologyConfiguration
  pub port : ℕ
  pub keyshare_path : Bytes
  pub frost_keyshare_path : Bytes
  pub key : Bytes
  pub comm_health_check_interval : ℤ

pub record RelayerConfig : Type 0 where
  pub open_telemetry_collector_url : Bytes
  pub log_level : ℤ
  pub log_file : Bytes
  pub health_port : ℕ
  pub env : Bytes
  pub id : Bytes
  pub mpc_config : MpcRelayerConfig
  pub bully_config : BullyConfig
  pub uploader_config : UploaderConfig

pub record RawBullyConfig : Type 0 where
  pub ping_wait_time : Bytes
  pub ping_back_off : Bytes
  pub ping_interval : Bytes
  pub election_wait_time : Bytes
  pub bully_wait_time : Bytes

pub record RawMpcRelayerConfig : Type 0 where
  pub keyshare_path : Bytes
  pub frost_keyshare_path : Bytes
  pub key : Bytes
  pub port : Bytes
  pub topology_configuration : TopologyConfiguration
  pub comm_health_check_interval : Bytes

pub record RawRelayerConfig : Type 0 where
  pub open_telemetry_collector_url : Bytes
  pub log_level : Bytes
  pub log_file : Bytes
  pub health_port : Bytes
  pub env : Bytes
  pub id : Bytes
  pub mpc_config : RawMpcRelayerConfig
  pub bully_config : RawBullyConfig
  pub uploader_config : UploaderConfig

-- zerolog's ParseLevel, and time.ParseDuration, which reads fractions by floating point; `none` is an
-- error.
pub record ConfigTexts : Type 0 where
  pub parse_level : Bytes → Option ℤ
  pub parse_duration : Bytes → Option ℤ

-- `if err != nil { return …, fmt.Errorf(…) }`.
abbrev pub or_error {ℓ} : {A : Type ℓ} → Option A → Bytes → Result Bytes A
or_error (some a) message = ok a
or_error none message = err message

unfoldable pub validate : RawRelayerConfig → Option Bytes
validate c =
    if c.mpc_config.key == []
    then some (codes "topology configuration mpc key not provided")
    else if c.mpc_config.topology_configuration.path == []
    then some (codes "topology configuration path not provided")
    else none

abbrev pub and_then {ℓ} : {A : Type ℓ} → Option Bytes → Result Bytes A → Result Bytes A
and_then (some message) next = err message
and_then none next = next

-- The functions of the source as chains of steps over what the texts are read as.
mpc_from : RawRelayerConfig → Option ℤ → Option ℤ → Result Bytes MpcRelayerConfig
mpc_from raw_config port_text interval_text = do
  port ← or_error port_text (codes "unable to parse mpc port from tss_config")
  duration ←
      or_error interval_text (codes "unable to parse communication health check interval time")
  ok (record {
    topology_configuration = raw_config.mpc_config.topology_configuration;
    port = to_uint16 port;
    keyshare_path = raw_config.mpc_config.keyshare_path;
    frost_keyshare_path = raw_config.mpc_config.frost_keyshare_path;
    key = raw_config.mpc_config.key;
    comm_health_check_interval = duration;
  })

relayer_from :
    RawRelayerConfig
    → Option ℤ
    → Option ℤ
    → Result Bytes MpcRelayerConfig
    → Result Bytes BullyConfig
    → Result Bytes RelayerConfig
relayer_from raw_config level_text port_text mpc bully = do
  log_level ← or_error level_text (codes "unknown log level")
  health_port ← or_error port_text (codes "unable to parse health port")
  mpc_config ← mpc
  bully_config ← bully
  ok (record {
    open_telemetry_collector_url = raw_config.open_telemetry_collector_url;
    log_level = log_level;
    log_file = raw_config.log_file;
    health_port = to_uint16 health_port;
    env = raw_config.env;
    id = raw_config.id;
    mpc_config = mpc_config;
    bully_config = bully_config;
    uploader_config = raw_config.uploader_config;
  })

module _ (texts : ConfigTexts) where
  unfoldable pub parse_mpc_config : RawRelayerConfig → Result Bytes MpcRelayerConfig
  unfolding mpc_from
  parse_mpc_config raw_config =
      mpc_from raw_config (parse_int 16 raw_config.mpc_config.port)
        (texts.parse_duration raw_config.mpc_config.comm_health_check_interval)

  unfoldable pub parse_bully_config : RawRelayerConfig → Result Bytes BullyConfig
  parse_bully_config raw_config = do
    election_wait_time ←
        or_error (texts.parse_duration raw_config.bully_config.election_wait_time)
          (codes "unable to parse bully election wait time")
    ping_wait_time ←
        or_error (texts.parse_duration raw_config.bully_config.ping_wait_time)
          (codes "unable to parse bully ping wait time")
    ping_interval ←
        or_error (texts.parse_duration raw_config.bully_config.ping_interval)
          (codes "unable to parse bully ping interval time")
    ping_back_off ←
        or_error (texts.parse_duration raw_config.bully_config.ping_back_off)
          (codes "unable to parse bully ping back off time")
    bully_wait_time ←
        or_error (texts.parse_duration raw_config.bully_config.bully_wait_time)
          (codes "unable to parse bully wait time")
    ok (record {
      ping_wait_time = ping_wait_time;
      ping_back_off = ping_back_off;
      ping_interval = ping_interval;
      election_wait_time = election_wait_time;
      bully_wait_time = bully_wait_time;
    })

  unfoldable pub new_relayer_config : RawRelayerConfig → Result Bytes RelayerConfig
  unfolding validate parse_mpc_config parse_bully_config relayer_from
  new_relayer_config raw_config = and_then (validate raw_config) (
      relayer_from raw_config (texts.parse_level raw_config.log_level)
        (parse_int 16 raw_config.health_port) (parse_mpc_config raw_config)
        (parse_bully_config raw_config))

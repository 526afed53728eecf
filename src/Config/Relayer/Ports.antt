-- ===== src/Config/Relayer/Ports.antt =====
-- Which ports a configuration can have.
use binance_tss_demo.Prelude.{
  ℕ, suc, ◌-◌, ◌^◌, ◌<◌, ◌≡◌, refl, ap, ◌∙◌, sym, Bytes, ◌∷◌, Option, none, some, Result, ok, err,
  ℤ, arith,
}
use binance_tss_demo.Strconv.Decimal.{decimal}
use binance_tss_demo.Strconv.ParseInt.{parse_int, to_uint16}
use binance_tss_demo.Strconv.ParseInt.Laws.{parse_int-text, parse_int-minus}
use binance_tss_demo.Config.Relayer.{
  RawRelayerConfig, RelayerConfig, MpcRelayerConfig, BullyConfig, ConfigTexts, and_then, mpc_from,
  relayer_from, parse_mpc_config, new_relayer_config,
}

and_then_ok :
    {A : Type 0} (o : Option Bytes) (r : Result Bytes A) (a : A) → and_then o r ≡ ok a → r ≡ ok a
and_then_ok none r a h = h
and_then_ok (some e) r a h = absurd (cc)

-- A port text is read, and the port is what is read.
abbrev Reads : Option ℤ → ℕ → Type 0
Reads port_text port = (z : ℤ) × (port_text ≡ some z) × (port ≡ to_uint16 z)

mpc_from-port :
    (raw : RawRelayerConfig) (port_text interval_text : Option ℤ) (c : MpcRelayerConfig)
    → mpc_from raw port_text interval_text ≡ ok c
    → Reads port_text c.port
unfolding mpc_from
mpc_from-port raw none d c h = absurd (cc)
mpc_from-port raw (some z) none c h = absurd (cc)
mpc_from-port raw (some z) (some d) c h = (z, refl, ground arith)

relayer_from-ports :
    (raw : RawRelayerConfig) (level_text port_text : Option ℤ) (mpc : Result Bytes MpcRelayerConfig)
    (bully : Result Bytes BullyConfig) (c : RelayerConfig)
    → relayer_from raw level_text port_text mpc bully ≡ ok c
    → Reads port_text c.health_port × (mpc ≡ ok (c.mpc_config))
unfolding relayer_from
relayer_from-ports raw none p m b c h = absurd (cc)
relayer_from-ports raw (some l) none m b c h = absurd (cc)
relayer_from-ports raw (some l) (some z) (err e) b c h = absurd (cc)
relayer_from-ports raw (some l) (some z) (ok m) (err e) c h = absurd (cc)
relayer_from-ports raw (some l) (some z) (ok m) (ok b) c h = ((z, refl, ground arith), ground arith)

read_ports :
    (texts : ConfigTexts) (raw : RawRelayerConfig) (c : RelayerConfig)
    → new_relayer_config texts raw ≡ ok c
    → Reads (parse_int 16 raw.health_port) c.health_port
      × Reads (parse_int 16 raw.mpc_config.port) c.mpc_config.port
unfolding new_relayer_config parse_mpc_config
read_ports texts raw c h =
    let (health, mpc) = relayer_from-ports raw _ _ _ _ c (and_then_ok _ _ c h) in
    (health, mpc_from-port raw _ _ c.mpc_config mpc)

-- What a port is whose text is a decimal number, or one with a minus in front.
abbrev pub PortOf : Bytes → ℕ → Type 0
PortOf port_text port =
    ((n : ℕ) → port_text ≡ decimal n → (n < 2 ^ 15) × (port ≡ n))
    × ((n : ℕ) → n < 2 ^ 15 → port_text ≡ b'-' ∷ decimal (suc n) → port ≡ 2 ^ 16 - suc n)

Reads-PortOf : (s : Bytes) (port : ℕ) → Reads (parse_int 16 s) port → PortOf s port
Reads-PortOf s port (z, parsed, e) = (
  λ n text.
      let (small, same) = parse_int-text n z (ap (parse_int 16) (sym text) ∙ parsed) in
      (small, e ∙ ap to_uint16 same ∙ omega arith),
  λ n small text.
      e
      ∙ ap to_uint16 (some_same (sym parsed ∙ ap (parse_int 16) text ∙ parse_int-minus n small))
      ∙ omega arith,
)
  where
    some_same : {a b : ℤ} → some a ≡ some b → a ≡ b
    some_same e = cc

-- In a configuration that is taken, each of the two ports is the decimal number that its text is,
-- which is below 32768; and where its text is a minus and the number n, for n up to 32768, it is
-- 65536 - n.
pub new_relayer_config-PortOf :
    (texts : ConfigTexts) (raw : RawRelayerConfig) (c : RelayerConfig)
    → new_relayer_config texts raw ≡ ok c
    → PortOf raw.health_port c.health_port × PortOf raw.mpc_config.port c.mpc_config.port
new_relayer_config-PortOf texts raw c h =
    let (health, mpc) = read_ports texts raw c h in
    (
      Reads-PortOf raw.health_port c.health_port health,
      Reads-PortOf raw.mpc_config.port c.mpc_config.port mpc,
    )

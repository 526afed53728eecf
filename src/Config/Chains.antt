-- ===== src/Config/Chains.antt =====
-- tss_util/tss_config/config.go: the relayer's part of a configuration, and its chains with those of a
-- shared configuration.
pub mod Merged
use binance_tss_demo.Prelude.{
  ℕ, zero, ℤ, pos, negsuc, Bool, true, false, Bytes, List, [], ◌∷◌, ◌++◌, Option, none, some,
  Result, ok, err, ◌>>=◌, ◌==◌, bytes_Comparable, codes, nat_eq, ◌&&◌, ◌||◌, if◌then◌else◌,
}
use binance_tss_demo.Prelude.Maps.{lookup}
use binance_tss_demo.Config.Relayer.{
  RawRelayerConfig, RelayerConfig, ConfigTexts, new_relayer_config,
}

-- Go's float64, with the conversion from int and `==`.
pub record Floats : Type 1 where
  pub Float : Type 0
  pub of_int : ℤ → Float
  pub equal : Float → Float → Bool

-- An `interface{}` that decoding gives: nil, an int, a float64, a string, or something else.
pub data Dynamic (Float : Type 0) : Type 0 where
  nil : Dynamic Float
  int : ℤ → Dynamic Float
  float : Float → Dynamic Float
  string : Bytes → Dynamic Float
  else_value : Bytes → Dynamic Float

abbrev int_equal : ℤ → ℤ → Bool
int_equal (pos m) (pos n) = nat_eq m n
int_equal (negsuc m) (negsuc n) = nat_eq m n
int_equal (pos m) (negsuc n) = false
int_equal (negsuc m) (pos n) = false

module _ (floats : Floats) where
  abbrev pub Any : Type 0
  Any = Dynamic floats.Float

  abbrev pub Chain : Type 0
  Chain = List (Bytes × Any)

  -- A key that is missing reads nil.
  abbrev pub value_of : Bytes → Chain → Any
  value_of key chain = elim (lookup key chain) [ some v ↦ v | none ↦ nil ]

  unfoldable pub compare_domain_id : Any → Any → Bool
  compare_domain_id (int a) (int b) = int_equal a b
  compare_domain_id (int a) (float b) = floats.equal (floats.of_int a) b
  compare_domain_id (float a) (int b) = floats.equal a (floats.of_int b)
  compare_domain_id (float a) (float b) = floats.equal a b
  compare_domain_id a b = false

  -- The error names the id, which is left out.
  unfoldable pub find_chain_config : Any → List Chain → Result Bytes Chain
  unfolding compare_domain_id
  find_chain_config id [] = err (codes "missing chain")
  find_chain_config id (config ∷ configs) =
      let rest = find_chain_config id configs in
      if compare_domain_id id (value_of (codes "id") config) then ok config else rest

  -- `chain["id"] == 0 || chain["id"] == nil`: a float64 is not equal to the int 0.
  unfoldable pub is_missing_id : Any → Bool
  is_missing_id nil = true
  is_missing_id (int z) = int_equal z (pos 0)
  is_missing_id v = false

  unfoldable pub is_missing_type : Any → Bool
  is_missing_type nil = true
  is_missing_type (string s) = s == []
  is_missing_type v = false

  pub record Config : Type 0 where
    pub relayer_config : RelayerConfig
    pub chain_configs : List Chain

  pub record RawConfig : Type 0 where
    pub relayer_config : RawRelayerConfig
    pub chain_configs : List Chain

  -- What is called of creasty/defaults and imdario/mergo.
  pub record ConfigLib : Type 0 where
    pub set_defaults : RawConfig → Result Bytes RawConfig
    pub merge : Chain → Chain → Result Bytes Chain

  module _ (lib : ConfigLib) (shared : List Chain) where
    unfoldable pub merged_chain : Chain → Result Bytes Chain
    unfolding find_chain_config is_missing_id is_missing_type
    merged_chain chain =
        if is_missing_id (value_of (codes "id") chain)
        then err (codes "chain 'id' not configured")
        else if is_missing_type (value_of (codes "type") chain)
        then err (codes "chain 'type' must be provided for every configured chain")
        else (find_chain_config (value_of (codes "id") chain) shared >>= λ config.
            lib.merge chain config)

    -- The loop, which appends to the chains that it has.
    unfoldable pub merged_chains : List Chain → List Chain → Result Bytes (List Chain)
    merged_chains done [] = ok done
    merged_chains done (chain ∷ chains) = elim (merged_chain chain) [
      | err e ↦ err e
      | ok merged ↦ merged_chains (done ++ merged ∷ []) chains
    ]

  -- What becomes of the configuration that is passed, which is nil or shared.
  unfoldable pub with_config :
      ConfigLib → List Chain → RelayerConfig → Option Config → Result Bytes Config
  unfolding merged_chains
  with_config lib chains relayer none =
      ok (record { relayer_config = relayer; chain_configs = chains })
  with_config lib chains relayer (some config) =
      merged_chains lib config.chain_configs [] chains >>= λ merged.
      ok (record { relayer_config = relayer; chain_configs = merged })

  -- `processRawConfig`; with an error comes the configuration that was passed.
  unfoldable pub process_raw_config :
      ConfigLib → ConfigTexts → RawConfig → Option Config → Result Bytes Config
  unfolding with_config
  process_raw_config lib texts raw config = do
    full ← lib.set_defaults raw
    relayer ← new_relayer_config texts full.relayer_config
    with_config lib full.chain_configs relayer config

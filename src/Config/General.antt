-- ===== src/Config/General.antt =====
-- tss_util/tss_config/chain/config.go: the checks of one chain's configuration, and the flags over it.
use binance_tss_demo.Prelude.{
  ℕ, Bool, true, false, Bytes, [], ◌++◌, Option, none, some, codes, ◌==◌, bytes_Comparable,
  if◌then◌else◌, ◌≡◌, refl,
}
use binance_tss_demo.Strconv.Decimal.{decimal}

pub record GeneralChainConfig : Type 0 where
  pub name : Bytes
  pub id : Option ℕ
  pub endpoint : Bytes
  pub chain_type : Bytes
  pub blockstore_path : Bytes
  pub fresh_start : Bool
  pub latest_block : Bool
  pub key : Bytes
  pub insecure : Bool

-- `Validate`: the text of its error. A chain with an id is asked for its endpoint before its name.
unfoldable pub validate : GeneralChainConfig → Option Bytes
validate c = elim c.id [
  | none ↦ some (codes "required field domain.Id empty for chain <nil>")
  | some id ↦
      if c.endpoint == []
      then some (codes "required field chain.Endpoint empty for chain " ++ decimal id)
      else if c.name == []
      then some (codes "required field chain.Name empty for chain " ++ decimal id)
      else none
]

-- What viper gives for the flags of the blockstore, of a fresh start and of the latest block.
pub record Flags : Type 0 where
  pub blockstore : Bytes
  pub fresh : Bool
  pub latest : Bool

-- `ParseFlags`: a flag that is not set leaves its field.
unfoldable pub parse_flags : Flags → GeneralChainConfig → GeneralChainConfig
parse_flags flags c = record c {
  blockstore_path = if flags.blockstore == [] then c.blockstore_path else flags.blockstore;
  fresh_start = if flags.fresh then flags.fresh else c.fresh_start;
  latest_block = if flags.latest then flags.latest else c.latest_block;
}

over-again :
    (unset : Bool) (new old : Bytes)
    → (if unset then (if unset then old else new) else new) ≡ (if unset then old else new)
over-again true new old = refl
over-again false new old = refl

set-again :
    (flag old : Bool)
    → (if flag then flag else (if flag then flag else old)) ≡ (if flag then flag else old)
set-again true old = refl
set-again false old = refl

ap3 :
    {A B C D : Type 0} (f : A → B → C → D) {a a' : A} {b b' : B} {c c' : C}
    → a ≡ a'
    → b ≡ b'
    → c ≡ c'
    → f a b c ≡ f a' b' c'
ap3 f p q r = λ i. f (p i) (q i) (r i)

-- The flags do not make a configuration valid or invalid, and reading them again changes nothing.
pub parse_flags-again :
    (flags : Flags) (c : GeneralChainConfig)
    → (validate (parse_flags flags c) ≡ validate c)
      × (parse_flags flags (parse_flags flags c) ≡ parse_flags flags c)
unfolding validate parse_flags
parse_flags-again flags c = (
  refl,
  ap3
      (λ blockstore fresh latest. record c {
        blockstore_path = blockstore;
        fresh_start = fresh;
        latest_block = latest;
      })
      (over-again (flags.blockstore == []) flags.blockstore c.blockstore_path)
      (set-again flags.fresh c.fresh_start) (set-again flags.latest c.latest_block),
)

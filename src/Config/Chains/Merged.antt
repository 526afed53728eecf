-- ===== src/Config/Chains/Merged.antt =====
-- What the chains of a configuration are merged with.
use binance_tss_demo.Prelude.{
  ◌≡◌, ◌⊎◌, refl, ap, ◌∙◌, sym, Bool, true, false, Bytes, List, [], ◌∷◌, ◌++◌, some, Result, ok,
  err, codes, All, bind_ok, ok_same, inl, inr, if◌then◌else◌,
}
use mathlib.Core.Path.{subst}
use mathlib.Core.List.{append_assoc, append-nil}
use binance_tss_demo.Config.Relayer.{ConfigTexts, new_relayer_config}
use binance_tss_demo.Config.Chains.{
  Floats, Any, Chain, value_of, compare_domain_id, find_chain_config, is_missing_id,
  is_missing_type, Config, RawConfig, ConfigLib, merged_chain, merged_chains, with_config,
  process_raw_config,
}

chosen :
    {A : Type 0} (b : Bool) (x : A) (rest : Result Bytes A) (y : A)
    → (if b then ok x else rest) ≡ ok y
    → ((b ≡ true) × (x ≡ y)) ⊎ ((b ≡ false) × (rest ≡ ok y))
chosen true x rest y h = inl (refl, ok_same h)
chosen false x rest y h = inr (refl, h)

not_refused :
    {A : Type 0} (b : Bool) (e : Bytes) (rest : Result Bytes A) (y : A)
    → (if b then err e else rest) ≡ ok y
    → (b ≡ false) × (rest ≡ ok y)
not_refused true e rest y h = absurd (cc)
not_refused false e rest y h = (refl, h)

module _ (floats : Floats) where
  -- A chain is the first of some with an id.
  abbrev pub IsFirst : Any floats → List (Chain floats) → Chain floats → Type 0
  IsFirst id configs config =
      (before after : List (Chain floats)) × (configs ≡ before ++ config ∷ after)
      × (compare_domain_id floats id (value_of floats (codes "id") config) ≡ true)
      × All (λ c. compare_domain_id floats id (value_of floats (codes "id") c) ≡ false) before

  find-IsFirst :
      (id : Any floats) (configs : List (Chain floats)) (config : Chain floats)
      → find_chain_config floats id configs ≡ ok config
      → IsFirst id configs config
  unfolding find_chain_config
  find-IsFirst id [] config h = absurd (cc)
  find-IsFirst id (c ∷ cs) config h = elim (chosen _ c (find_chain_config floats id cs) config h) [
    | inl (t, same) ↦ (
      [],
      cs,
      ap (λ x. x ∷ cs) same,
      ap (λ x. compare_domain_id floats id (value_of floats (codes "id") x)) (sym same) ∙ t,
      tt,
    )
    | inr (f, later) ↦
        let (before, after, split, equal, others) = find-IsFirst id cs config later in
        (c ∷ before, after, ap (λ xs. c ∷ xs) split, equal, (f, others))
  ]

  -- A chain has an id and a type, and is merged with the first shared chain of its id.
  abbrev pub IsMerged :
      ConfigLib floats → List (Chain floats) → Chain floats → Chain floats → Type 0
  IsMerged lib shared chain merged =
      (is_missing_id floats (value_of floats (codes "id") chain) ≡ false)
      × (is_missing_type floats (value_of floats (codes "type") chain) ≡ false)
      × ((config : Chain floats) × IsFirst (value_of floats (codes "id") chain) shared config
          × (lib.merge chain config ≡ ok merged))

  merged_chain-IsMerged :
      (lib : ConfigLib floats) (shared : List (Chain floats)) (chain merged : Chain floats)
      → merged_chain floats lib shared chain ≡ ok merged
      → IsMerged lib shared chain merged
  unfolding merged_chain
  merged_chain-IsMerged lib shared chain merged h =
      let (has_id, more) = not_refused _ _ _ merged h in
      let (has_type, rest) = not_refused _ _ _ merged more in
      let (config, found, done) = bind_ok (find_chain_config floats _ shared) _ merged rest in
      (has_id, has_type, (config, find-IsFirst _ shared config found, done))

  -- Each chain is merged, in the order of the chains.
  abbrev pub AreMerged :
      ConfigLib floats → List (Chain floats) → List (Chain floats) → List (Chain floats) → Type 0
  AreMerged lib shared [] [] = Unit
  AreMerged lib shared [] (m ∷ ms) = ⊥
  AreMerged lib shared (c ∷ cs) [] = ⊥
  AreMerged lib shared (c ∷ cs) (m ∷ ms) = IsMerged lib shared c m × AreMerged lib shared cs ms

  merged_chains-AreMerged :
      (lib : ConfigLib floats) (shared done chains out : List (Chain floats))
      → merged_chains floats lib shared done chains ≡ ok out
      → (new : List (Chain floats)) × (out ≡ done ++ new) × AreMerged lib shared chains new
  unfolding merged_chains
  merged_chains-AreMerged lib shared done [] out h =
      ([], sym (ok_same h) ∙ sym (append-nil done), tt)
  merged_chains-AreMerged lib shared done (c ∷ cs) out h =
      let (m, made, more) = step (merged_chain floats lib shared c) h in
      let (new, whole, rest) = merged_chains-AreMerged lib shared (done ++ m ∷ []) cs out more in
      (
        m ∷ new,
        whole ∙ append_assoc done (m ∷ []) new,
        (merged_chain-IsMerged lib shared c m made, rest),
      )
    where
      step :
          (r : Result Bytes (Chain floats))
          → (elim r [
            | err e ↦ err e
            | ok merged ↦ merged_chains floats lib shared (done ++ merged ∷ []) cs
          ])
            ≡ ok out
          → (m : Chain floats) × (r ≡ ok m)
            × (merged_chains floats lib shared (done ++ m ∷ []) cs ≡ ok out)
      step (ok m) e = (m, refl, e)
      step (err b) e = absurd (cc)

  -- A raw configuration that is taken with a shared one has, with its defaults, a relayer part that is
  -- taken; and each of its chains has an id and a type, and becomes, in its place, what it is merged to
  -- with the first shared chain of its id.
  pub process_raw_config-merged :
      (lib : ConfigLib floats) (texts : ConfigTexts) (raw : RawConfig floats)
      (config out : Config floats)
      → process_raw_config floats lib texts raw (some config) ≡ ok out
      → (full : RawConfig floats) × (lib.set_defaults raw ≡ ok full)
        × (new_relayer_config texts full.relayer_config ≡ ok out.relayer_config)
        × AreMerged lib config.chain_configs full.chain_configs out.chain_configs
  unfolding process_raw_config with_config
  process_raw_config-merged lib texts raw config out h =
      let (full, defaults, more) = bind_ok (lib.set_defaults raw) _ out h in
      let (relayer, taken, rest) =
        bind_ok (new_relayer_config texts full.relayer_config) _ out more in
      let (chains, looped, same) =
        bind_ok (merged_chains floats lib config.chain_configs [] full.chain_configs) _ out rest in
      let (new, whole, merged) =
        merged_chains-AreMerged lib config.chain_configs [] full.chain_configs chains looped in
      (
        full,
        defaults,
        taken ∙ ap (λ c. ok c.relayer_config) (ok_same same),
        subst (AreMerged lib config.chain_configs full.chain_configs)
            (sym whole ∙ ap (λ c. c.chain_configs) (ok_same same)) merged,
      )

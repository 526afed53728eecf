-- ===== src/Config/Env.antt =====
-- tss_util/tss_config/env.go: the variables of the environment as a tree.
pub mod Paths
pub mod Mounted
use binance_tss_demo.Prelude.{
  ℕ, Bool, true, false, Bytes, List, [], ◌∷◌, ◌++◌, Option, none, some, ◌==◌, bytes_Comparable,
  if◌then◌else◌, nat_eq, codes,
}

-- A value of `map[string]interface{}` that the code puts there: a text, or another such map, as a list
-- with one entry for a key.
mutual
  pub data Value : Type 0 where
    text : Bytes → Value
    node : Entries → Value

  pub data Entries : Type 0 where
    nothing : Entries
    entry : Bytes → Value → Entries → Entries

abbrev pub find : Bytes → Entries → Option Value
find key nothing = none
find key (entry other v rest) = if key == other then some v else find key rest

abbrev pub set : Bytes → Value → Entries → Entries
set key new nothing = entry key new nothing
set key new (entry other v rest) =
    let kept = set key new rest in if key == other then entry other new rest else entry other v kept

-- The map under a key, which is made if there is none; `none` is a text.
abbrev pub as_map : Option Value → Option Entries
as_map none = some nothing
as_map (some (node m)) = some m
as_map (some (text t)) = none

-- `mountMap`, with the first of the indexes apart from the others.
unfoldable pub mount_map : Entries → Bytes → List Bytes → Bytes → Entries
mount_map m i [] v = set i (text v) m
mount_map m i (j ∷ is) v = elim (as_map (find i m)) [
  | none ↦ m
  | some child ↦ set i (node (mount_map child j is v)) m
]

-- `strings.Contains`, and the two splits: at the first `=`, and at every `_`.
abbrev starts_with : Bytes → Bytes → Bool
starts_with s [] = true
starts_with [] (p ∷ ps) = false
starts_with (c ∷ cs) (p ∷ ps) = let rest = starts_with cs ps in if nat_eq c p then rest else false

abbrev contains_text : Bytes → Bytes → Bool
contains_text [] p = starts_with [] p
contains_text (c ∷ cs) p =
    let rest = contains_text cs p in if starts_with (c ∷ cs) p then true else rest

abbrev cut : Bytes → Option (Bytes × Bytes)
cut [] = none
cut (c ∷ cs) =
    let rest = cut cs in
    if nat_eq c b'='
    then some ([], cs)
    else elim rest [ none ↦ none | some (name, value) ↦ some (c ∷ name, value) ]

abbrev split_indexes : Bytes → Bytes × List Bytes
split_indexes [] = ([], [])
split_indexes (c ∷ cs) =
    let (first, others) = split_indexes cs in
    if nat_eq c b'_' then ([], first ∷ others) else (c ∷ first, others)

-- A variable as `os.Environ` gives it; `none` is the panic for one without `=`.
mount_pair : Entries → Option (Bytes × Bytes) → Option Entries
mount_pair m none = none
mount_pair m (some (name, value)) =
    let (first, others) = split_indexes name in some (mount_map m first others value)

-- `loadENVToJsonStructure`, up to the JSON text.
unfoldable pub load_env : Entries → List Bytes → Option Entries
unfolding mount_pair mount_map
load_env structure [] = some structure
load_env structure (e ∷ es) =
    elim (if contains_text e (codes "SYG") then mount_pair structure (cut e) else some structure) [
      | none ↦ none
      | some next ↦ load_env next es
    ]

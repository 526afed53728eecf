-- ===== src/Config/Env/Mounted.antt =====
-- Where the variables are found in the tree.
use binance_tss_demo.Prelude.{
  ◌≡◌, refl, ◌∙◌, Bytes, List, [], ◌∷◌, none, some, bytes_Comparable, All,
}
use binance_tss_demo.Config.Env.{text, Entries, nothing, find, mount_map}
use binance_tss_demo.Config.Env.Paths.{get, FreeAt, IsFree, Diverges, mount-found, mount_beside}

-- A variable: its indexes and its text.
abbrev pub Variable : Type 0
Variable = Bytes × List Bytes × Bytes

abbrev pub mount_all : List Variable → Entries → Entries
mount_all [] m = m
mount_all ((i, is, v) ∷ vs) m = mount_all vs (mount_map m i is v)

abbrev DivergesFrom : Variable → Variable → Type 0
DivergesFrom (i, is, v) (k, ks, w) = Diverges i is k ks × Diverges k ks i is

-- No name of a variable goes on from another.
abbrev pub ArePairwiseDiverging : List Variable → Type 0
ArePairwiseDiverging [] = Unit
ArePairwiseDiverging (x ∷ xs) = All (DivergesFrom x) xs × ArePairwiseDiverging xs

abbrev pub IsFound : Entries → Variable → Type 0
IsFound m (i, is, v) = get m i is ≡ some (text v)

abbrev IsFreeFor : Entries → Variable → Type 0
IsFreeFor m (i, is, v) = IsFree m i is

frees_after :
    (vs : List Variable) (m : Entries) (i : Bytes) (is : List Bytes) (v : Bytes)
    → IsFree m i is
    → All (IsFreeFor m) vs
    → All (DivergesFrom (i, is, v)) vs
    → All (IsFreeFor (mount_map m i is v)) vs
frees_after [] m i is v f frees apart = tt
frees_after ((k, ks, w) ∷ vs) m i is v f (g, frees) ((one, two), apart) =
    ((mount_beside is m i v k ks (find i m) refl f one).1 g, frees_after vs m i is v f frees apart)

still-IsFound :
    (vs : List Variable) (m : Entries) (x : Variable)
    → All (IsFreeFor m) vs
    → All (DivergesFrom x) vs
    → ArePairwiseDiverging vs
    → IsFound m x
    → IsFound (mount_all vs m) x
still-IsFound [] m x frees apart pairs found = found
still-IsFound ((i, is, v) ∷ vs) m (k, ks, w) (f, frees) ((one, two), apart) (a, pairs) found =
    still-IsFound vs (mount_map m i is v) (k, ks, w) (frees_after vs m i is v f frees a) apart pairs
      ((mount_beside is m i v k ks (find i m) refl f two).0 ∙ found)

all-IsFound :
    (vs : List Variable) (m : Entries)
    → All (IsFreeFor m) vs
    → ArePairwiseDiverging vs
    → All (IsFound (mount_all vs m)) vs
all-IsFound [] m frees pairs = tt
all-IsFound ((i, is, v) ∷ vs) m (f, frees) (a, pairs) =
    let rest = frees_after vs m i is v f frees a in
    (
      still-IsFound vs (mount_map m i is v) (i, is, v) rest a pairs
          (mount-found is m i v (find i m) refl f),
      all-IsFound vs (mount_map m i is v) rest pairs,
    )

free_none : (is : List Bytes) → FreeAt none is
free_none [] = tt
free_none (j ∷ is) = free_none is

all_free : (vs : List Variable) → All (IsFreeFor nothing) vs
all_free [] = tt
all_free ((i, is, v) ∷ vs) = (free_none is, all_free vs)

-- Variables of which no name goes on from another are all found in the tree under their indexes, with
-- their texts, in whatever order they are mounted.
pub mount_all-IsFound :
    (vs : List Variable) → ArePairwiseDiverging vs → All (IsFound (mount_all vs nothing)) vs
mount_all-IsFound vs pairs = all-IsFound vs nothing (all_free vs) pairs

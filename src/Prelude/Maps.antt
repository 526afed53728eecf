-- ===== src/Prelude/Maps.antt =====
-- Go maps, as association lists with one entry for a key that was set.
use mathlib.Core.Path.{◌≡◌, refl}
use mathlib.Core.List.{List, [], ◌∷◌}
use mathlib.Core.Option.{Option, none, some}
use native.Mathlib.Omega.{arith}
use binance_tss_demo.Prelude.Tests.{Comparable, ◌==◌, if◌then◌else◌}

module _ {Key Value : Type 0} ⦃c : Comparable Key⦄ where
  abbrev pub lookup : Key → List (Key × Value) → Option Value
  lookup key [] = none
  lookup key ((other, value) ∷ rest) = if key == other then some value else lookup key rest

  -- Setting a key replaces its entry, or adds one at the end.
  abbrev pub insert : Key → Value → List (Key × Value) → List (Key × Value)
  insert key new [] = (key, new) ∷ []
  insert key new ((other, value) ∷ rest) =
      let kept = insert key new rest in
      if key == other then (other, new) ∷ rest else (other, value) ∷ kept

  -- Go's `delete`: no entry of the key is left.
  abbrev pub delete : Key → List (Key × Value) → List (Key × Value)
  delete key [] = []
  delete key ((other, value) ∷ rest) =
      let kept = delete key rest in if key == other then kept else (other, value) ∷ kept

  pub lookup-insert :
      (set get : Key) (new : Value) (entries : List (Key × Value))
      → lookup get (insert set new entries) ≡ (if get == set then some new else lookup get entries)
  lookup-insert set get new [] = refl
  lookup-insert set get new ((other, value) ∷ rest) = ground (
    arith,
    lookup-insert set get new rest,
    c.equal_iff get other,
    c.equal_iff set other,
    c.equal_iff get set,
  )

  pub lookup-delete :
      (gone get : Key) (entries : List (Key × Value))
      → lookup get (delete gone entries) ≡ (if get == gone then none else lookup get entries)
  lookup-delete gone get [] = ground arith
  lookup-delete gone get ((other, value) ∷ rest) = ground (
    arith,
    lookup-delete gone get rest,
    c.equal_iff get other,
    c.equal_iff gone other,
    c.equal_iff get gone,
  )

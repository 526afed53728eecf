-- ===== src/Config/Env/Paths.antt =====
-- The tree under paths of keys, before and after a mount.
use binance_tss_demo.Prelude.{
  ◌≡◌, refl, ap, ◌∙◌, sym, Bool, true, false, Bytes, List, [], ◌∷◌, Option, none, some, ◌==◌,
  bytes_Comparable, if◌then◌else◌, arith, eq_refl, Bool-cases, inl, inr, Option-cases,
}
use mathlib.Core.Path.{subst}
use binance_tss_demo.Config.Env.{
  Value, text, node, Entries, nothing, entry, find, set, as_map, mount_map,
}

-- What is under keys, from a value on.
abbrev pub get_at : Option Value → List Bytes → Option Value
get_at o [] = o
get_at o (j ∷ is) = elim (as_map o) [ none ↦ none | some child ↦ get_at (find j child) is ]

-- The value under a path of keys.
abbrev pub get : Entries → Bytes → List Bytes → Option Value
get m i is = get_at (find i m) is

-- No text stands on the way.
abbrev pub FreeAt : Option Value → List Bytes → Type 0
FreeAt o [] = Unit
FreeAt o (j ∷ is) = elim (as_map o) [ none ↦ ⊥ | some child ↦ FreeAt (find j child) is ]

abbrev pub IsFree : Entries → Bytes → List Bytes → Type 0
IsFree m i is = FreeAt (find i m) is

-- Neither path is the other or goes on from it.
abbrev pub Diverges : Bytes → List Bytes → Bytes → List Bytes → Type 0
Diverges i (j ∷ is) k (l ∷ ks) = if i == k then Diverges j is l ks else Unit
Diverges i [] k ks = (i == k) ≡ false
Diverges i (j ∷ is) k [] = (i == k) ≡ false

pub find-set :
    (key other : Bytes) (new : Value) (m : Entries)
    → find other (set key new m) ≡ (if other == key then some new else find other m)
find-set key other new nothing = refl
find-set key other new (entry k v rest) = ground (
  arith,
  find-set key other new rest,
  bytes_Comparable.equal_iff other k,
  bytes_Comparable.equal_iff key k,
  bytes_Comparable.equal_iff other key,
)

find-set_same : (key : Bytes) (new : Value) (m : Entries) → find key (set key new m) ≡ some new
find-set_same key new m =
    find-set key key new m ∙ ap (λ b. if b then some new else find key m) (eq_refl key)

find-set_other :
    (key other : Bytes) (new : Value) (m : Entries)
    → (other == key) ≡ false
    → find other (set key new m) ≡ find other m
find-set_other key other new m h =
    find-set key other new m ∙ ap (λ b. if b then some new else find other m) h

mount-child :
    (m child : Entries) (i j : Bytes) (is : List Bytes) (v : Bytes)
    → as_map (find i m) ≡ some child
    → find i (mount_map m i (j ∷ is) v) ≡ some (node (mount_map child j is v))
unfolding mount_map
mount-child m child i j is v h =
    rw (h, mount_map) (find-set_same i (node (mount_map child j is v)) m)

pub mount-found :
    (is : List Bytes) (m : Entries) (i v : Bytes) (o : Option Value)
    → find i m ≡ o
    → FreeAt o is
    → get (mount_map m i is v) i is ≡ some (text v)
unfolding mount_map
mount-found [] m i v o e f = find-set_same i (text v) m
mount-found (j ∷ is) m i v none e f =
    ap (λ w. get_at w (j ∷ is)) (mount-child m nothing i j is v (ap as_map e))
    ∙ mount-found is nothing j v none refl f
mount-found (j ∷ is) m i v (some (node child)) e f =
    ap (λ w. get_at w (j ∷ is)) (mount-child m child i j is v (ap as_map e))
    ∙ mount-found is child j v (find j child) refl f
mount-found (j ∷ is) m i v (some (text t)) e f = absurd f

-- What is found and what is free elsewhere does not change.
abbrev pub Keeps : Option Value → Option Value → List Bytes → Type 0
Keeps o w ks = (get_at w ks ≡ get_at o ks) × (FreeAt o ks → FreeAt w ks)

Keeps-same : (o w : Option Value) (ks : List Bytes) → w ≡ o → Keeps o w ks
Keeps-same o w ks h = (ap (λ x. get_at x ks) h, λ f. subst (λ x. FreeAt x ks) (sym h) f)

set_elsewhere :
    (m : Entries) (i k : Bytes) (new : Value) (ks : List Bytes)
    → (i == k) ≡ false
    → Keeps (find k m) (find k (set i new m)) ks
set_elsewhere m i k new ks h = Keeps-same (find k m) (find k (set i new m)) ks (
    find-set_other i k new m
      (ground (arith, bytes_Comparable.equal_iff i k, bytes_Comparable.equal_iff k i)))

mount_elsewhere :
    (m : Entries) (i k : Bytes) (is : List Bytes) (v : Bytes) (ks : List Bytes)
    → (i == k) ≡ false
    → Keeps (find k m) (find k (mount_map m i is v)) ks
unfolding mount_map
mount_elsewhere m i k [] v ks h = set_elsewhere m i k (text v) ks h
mount_elsewhere m i k (j ∷ is) v ks h = elim (Option-cases (as_map (find i m))) [
  | inl e ↦ rw (e, mount_map) (Keeps-same (find k m) (find k m) ks refl)
  | inr (child, e) ↦ rw (e, mount_map) (set_elsewhere m i k (node (mount_map child j is v)) ks h)
]

Keeps-change :
    {o w : Option Value} (p x : Option Value) (ks : List Bytes)
    → o ≡ p
    → w ≡ x
    → Keeps p x ks
    → Keeps o w ks
Keeps-change {o} {w} p x ks a b keeps =
    subst (λ y. Keeps y w ks) (sym a) (subst (λ y. Keeps p y ks) (sym b) keeps)

-- The paths part below the key that they share.
mount_shared :
    (m child : Entries) (i k j l : Bytes) (is : List Bytes) (v : Bytes) (ks : List Bytes)
    (o : Option Value)
    → (i == k) ≡ true
    → find i m ≡ o
    → as_map o ≡ some child
    → Keeps o (some (node (mount_map child j is v))) (l ∷ ks)
    → Keeps (find k m) (find k (mount_map m i (j ∷ is) v)) (l ∷ ks)
mount_shared m child i k j l is v ks o h e c keeps =
    let same : k ≡ i = sym ((bytes_Comparable.equal_iff i k).0 h) in
    Keeps-change o (some (node (mount_map child j is v))) (l ∷ ks) (ap (λ x. find x m) same ∙ e)
      (ap (λ x. find x (mount_map m i (j ∷ is) v)) same
        ∙ mount-child m child i j is v (ap as_map e ∙ c))
      keeps

pub shared : (P : Type 0) (b : Bool) → b ≡ true → (if b then P else Unit) → P
shared P true h p = p
shared P false h p = absurd (cc)

pub mount_beside :
    (is : List Bytes) (m : Entries) (i v k : Bytes) (ks : List Bytes) (o : Option Value)
    → find i m ≡ o
    → FreeAt o is
    → Diverges i is k ks
    → Keeps (find k m) (find k (mount_map m i is v)) ks
mount_beside [] m i v k ks o e f d = mount_elsewhere m i k [] v ks d
mount_beside (j ∷ is) m i v k [] o e f d = mount_elsewhere m i k (j ∷ is) v [] d
mount_beside (j ∷ is) m i v k (l ∷ ks) (some (text t)) e f d = absurd f
mount_beside (j ∷ is) m i v k (l ∷ ks) none e f d = elim (Bool-cases (i == k)) [
  | inr h ↦ mount_elsewhere m i k (j ∷ is) v (l ∷ ks) h
  | inl h ↦
      mount_shared m nothing i k j l is v ks none h e refl
        (mount_beside is nothing j v l ks none refl f (shared (Diverges j is l ks) (i == k) h d))
]
mount_beside (j ∷ is) m i v k (l ∷ ks) (some (node child)) e f d = elim (Bool-cases (i == k)) [
  | inr h ↦ mount_elsewhere m i k (j ∷ is) v (l ∷ ks) h
  | inl h ↦ mount_shared m child i k j l is v ks (some (node child)) h e refl (
      mount_beside is child j v l ks (find j child) refl f
        (shared (Diverges j is l ks) (i == k) h d))
]

-- ===== src/Examples/World.antt =====
-- A small world: three peers of one byte, with the libraries as simple functions.
use binance_tss_demo.Prelude.{
  ◌≡◌, Bytes, List, [], ◌∷◌, ◌++◌, none, some, Result, ok, codes, Perm, map,
}
use mathlib.Core.List.Perm
use binance_tss_demo.Peers.{PeerId, PeerLib, IsPeerLib}
use binance_tss_demo.Process.{Error, Failure, Runtime, IsRuntime}
use binance_tss_demo.Ecdsa.Signing.{PeersJson}

abbrev pub p1 : PeerId
p1 = 1 ∷ []

abbrev pub p2 : PeerId
p2 = 2 ∷ []

abbrev pub p3 : PeerId
p3 = 3 ∷ []

abbrev pub sid : Bytes
sid = codes "s"

-- The hash is the text itself, so a greater peer comes first.
abbrev pub lib : PeerLib
lib = record { pretty = λ p. p; decode = λ b. some b; keccak256 = λ b. b }

pub lib-IsPeerLib : IsPeerLib lib
lib-IsPeerLib = record { pretty_injective = λ p q e. e }

abbrev pub first_failure : List Failure → Failure
first_failure [] = none
first_failure (some e ∷ fs) = some e
first_failure (none ∷ fs) = first_failure fs

abbrev pub rt : Runtime
rt = record { pool_wait = first_failure; marshal_start = λ b. ok b; unmarshal_start = λ b. ok b }

pub rt-IsRuntime : IsRuntime rt
rt-IsRuntime = record { start_round = λ params bytes e. ok_swap params bytes e }
  where
    ok_swap :
        (a b : Bytes)
        → ◌≡◌ {A = Result Error Bytes} (ok a) (ok b)
        → ◌≡◌ {A = Result Error Bytes} (ok b) (ok a)
    ok_swap a b e = cc

abbrev pub concat : List PeerId → Bytes
concat [] = []
concat (p ∷ ps) = p ++ concat ps

abbrev pub json : PeersJson
json = record { marshal = concat; unmarshal = λ b. ok (map (λ c. c ∷ []) b) }

abbrev pub up : List PeerId
up = p1 ∷ p2 ∷ p3 ∷ []

abbrev pub mixed : List PeerId
mixed = p2 ∷ p1 ∷ p3 ∷ []

pub up-mixed : Perm up mixed
up-mixed = Perm.swap p2 p1 (p3 ∷ [])

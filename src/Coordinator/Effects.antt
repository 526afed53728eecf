-- ===== src/Coordinator/Effects.antt =====
-- What the loops of the coordinator do, in order, and how they end.
use binance_tss_demo.Prelude.{Bool, Bytes, List, [], ◌∷◌, ◌++◌, ◌≡◌, ◌⊎◌, inl, inr}
use binance_tss_demo.Peers.{PeerId}
use binance_tss_demo.Message.{MessageType}
use binance_tss_demo.Process.{Failure}

pub data Effect : Type 0 where
  subscribed unsubscribed : MessageType → Effect
  initiate_sent : Effect
  start_sent : Bytes → Effect
  ready_sent : PeerId → Effect
  runs : Bool → Bytes → Effect
  session_closed stopped : Bytes → Effect

-- A loop that has seen all its events still waits, or it has returned.
pub data Outcome : Type 0 where
  waiting : Outcome
  returned : Failure → Outcome

-- The effects come in the order of the log.
abbrev pub Log : Type 0
Log = List Effect

-- An effect stands in a log.
abbrev pub IsIn : Effect → Log → Type 0
IsIn e [] = ⊥
IsIn e (d ∷ log) = (e ≡ d) ⊎ IsIn e log

pub IsIn-append : (e : Effect) (xs ys : Log) → IsIn e (xs ++ ys) → IsIn e xs ⊎ IsIn e ys
IsIn-append e [] ys h = inr h
IsIn-append e (x ∷ xs) ys (inl p) = inl (inl p)
IsIn-append e (x ∷ xs) ys (inr h) = elim (IsIn-append e xs ys h) [
  | inl a ↦ inl (inr a)
  | inr b ↦ inr b
]

pub IsIn-append_left : (e : Effect) (xs ys : Log) → IsIn e xs → IsIn e (xs ++ ys)
IsIn-append_left e (x ∷ xs) ys (inl p) = inl p
IsIn-append_left e (x ∷ xs) ys (inr h) = inr (IsIn-append_left e xs ys h)
IsIn-append_left e [] ys h = absurd h

pub IsIn-append_right : (e : Effect) (xs ys : Log) → IsIn e ys → IsIn e (xs ++ ys)
IsIn-append_right e [] ys h = h
IsIn-append_right e (x ∷ xs) ys h = inr (IsIn-append_right e xs ys h)

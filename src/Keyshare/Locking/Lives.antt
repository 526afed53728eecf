-- ===== src/Keyshare/Locking/Lives.antt =====
-- What the processes leave of the lock.
use binance_tss_demo.Prelude.{
  ◌≡◌, refl, Bool, false, Bytes, List, [], ◌∷◌, inl, inr, arith, bytes_Comparable,
}
use mathlib.Core.Path.{subst}
use binance_tss_demo.Peers.{PeerLib}
use binance_tss_demo.Process.{TssProcess, Runtime, Failure}
use binance_tss_demo.Coordinator.Effects.{
  Log, Outcome, IsIn, subscribed, unsubscribed, initiate_sent, start_sent, ready_sent, runs,
  session_closed, stopped, waiting, returned,
}
use binance_tss_demo.Coordinator.Execute.{Coordinator, Script, is_pending, execute}
use binance_tss_demo.Coordinator.Execute.Release.{execute-release, IsReleased}
use binance_tss_demo.Coordinator.Execute.Quiet.{stop_count}
use binance_tss_demo.Coordinator.Execute.Stops.{StopsOnce, execute-StopsOnce}
use binance_tss_demo.Keyshare.Locking.{
  Mutex, free, held, lock_keyshare, unlock_keyshare, now, ends, locked, Locking, ecdsa_keygen,
  ecdsa_resharing, frost_keygen, frost_resharing, effect_ops, log_ops, life,
}

-- The kinds that take the lock when they are made and give it back when they are stopped.
abbrev holder : Locking
holder = record { on_new = lock_keyshare ∷ []; on_run = []; on_stop = unlock_keyshare ∷ [] }

no_stops : (log : Log) (m : Mutex) → stop_count log ≡ 0 → locked (log_ops holder log) m ≡ now m
unfolding locked log_ops effect_ops
no_stops [] m h = refl
no_stops (stopped i ∷ log) m h = absurd (omega arith)
no_stops (runs b params ∷ log) m h = no_stops log m (omega arith)
no_stops (subscribed t ∷ log) m h = no_stops log m (omega arith)
no_stops (unsubscribed t ∷ log) m h = no_stops log m (omega arith)
no_stops (initiate_sent ∷ log) m h = no_stops log m (omega arith)
no_stops (start_sent x ∷ log) m h = no_stops log m (omega arith)
no_stops (ready_sent x ∷ log) m h = no_stops log m (omega arith)
no_stops (session_closed x ∷ log) m h = no_stops log m (omega arith)

one_stop : (log : Log) → stop_count log ≡ 1 → locked (log_ops holder log) held ≡ now free
unfolding locked log_ops effect_ops
one_stop [] h = absurd (omega arith)
one_stop (stopped i ∷ log) h = no_stops log free (omega arith)
one_stop (runs b params ∷ log) h = one_stop log (omega arith)
one_stop (subscribed t ∷ log) h = one_stop log (omega arith)
one_stop (unsubscribed t ∷ log) h = one_stop log (omega arith)
one_stop (initiate_sent ∷ log) h = one_stop log (omega arith)
one_stop (start_sent x ∷ log) h = one_stop log (omega arith)
one_stop (ready_sent x ∷ log) h = one_stop log (omega arith)
one_stop (session_closed x ∷ log) h = one_stop log (omega arith)

-- What a call of Execute for one process of a kind leaves of a lock that was free: held while it waits,
-- and free when it has returned.
abbrev pub IsLocked : Locking → Coordinator × Log × Outcome → Type 0
IsLocked k (c, log, waiting) = locked (life k log) free ≡ now held
IsLocked k (c, log, returned f) = locked (life k log) free ≡ now free

holder-IsLocked : (r : Coordinator × Log × Outcome) → StopsOnce [] r → IsLocked holder r
unfolding locked life
holder-IsLocked (c, log, waiting) h = no_stops log held h
holder-IsLocked (c, log, returned f) h = one_stop log h

-- A FROST key generation, a FROST resharing and an ECDSA resharing, made while the lock of the key share
-- is free and given alone to an Execute that is not refused, each hold the lock while Execute waits, and
-- have given it back, once, when it has returned, whatever happens.
pub execute-IsLocked :
    (lib : PeerLib) (rt : Runtime) (process : TssProcess) (script : Script) (c : Coordinator)
    → is_pending process.session_id c ≡ false
    → let r = execute lib rt process [] script c in
      IsLocked frost_keygen r × IsLocked frost_resharing r × IsLocked ecdsa_resharing r
unfolding frost_keygen frost_resharing ecdsa_resharing
execute-IsLocked lib rt process script c new =
    let is =
      holder-IsLocked (execute lib rt process [] script c)
        (execute-StopsOnce lib rt process [] script c new) in
    (is, is, is)

-- A log without a run, in which a process is stopped.
never_run :
    (log : Log) (session_id : Bytes)
    → ((b : Bool) (params : Bytes) → ¬ IsIn (runs b params) log)
    → IsIn (stopped session_id) log
    → locked (log_ops ecdsa_keygen log) free ≡ ends
unfolding locked log_ops effect_ops ecdsa_keygen
never_run [] s fresh h = absurd h
never_run (runs b params ∷ log) s fresh h = absurd (fresh b params (inl refl))
never_run (stopped i ∷ log) s fresh h = refl
never_run (subscribed t ∷ log) s fresh (inl e) = absurd (cc)
never_run (subscribed t ∷ log) s fresh (inr h) = never_run log s (λ b p i. fresh b p (inr i)) h
never_run (unsubscribed t ∷ log) s fresh (inl e) = absurd (cc)
never_run (unsubscribed t ∷ log) s fresh (inr h) = never_run log s (λ b p i. fresh b p (inr i)) h
never_run (initiate_sent ∷ log) s fresh (inl e) = absurd (cc)
never_run (initiate_sent ∷ log) s fresh (inr h) = never_run log s (λ b p i. fresh b p (inr i)) h
never_run (start_sent x ∷ log) s fresh (inl e) = absurd (cc)
never_run (start_sent x ∷ log) s fresh (inr h) = never_run log s (λ b p i. fresh b p (inr i)) h
never_run (ready_sent x ∷ log) s fresh (inl e) = absurd (cc)
never_run (ready_sent x ∷ log) s fresh (inr h) = never_run log s (λ b p i. fresh b p (inr i)) h
never_run (session_closed x ∷ log) s fresh (inl e) = absurd (cc)
never_run (session_closed x ∷ log) s fresh (inr h) = never_run log s (λ b p i. fresh b p (inr i)) h

released-ends :
    (process : TssProcess) (processes : List TssProcess) (c : Coordinator) (log : Log) (f : Failure)
    → IsReleased process processes (c, log, returned f)
    → ((b : Bool) (params : Bytes) → ¬ IsIn (runs b params) log)
    → locked (life ecdsa_keygen log) free ≡ ends
unfolding life ecdsa_keygen
released-ends process processes c log f (idle, closed, stops) fresh =
    never_run log process.session_id fresh stops.0

-- An ECDSA key generation that an Execute which is not refused has stopped without running it, made while
-- the lock of the key share is free, ends the program by unlocking a lock that is not held.
pub execute-ends :
    (lib : PeerLib) (rt : Runtime) (process : TssProcess) (processes : List TssProcess)
    (script : Script) (c after : Coordinator) (log : Log) (f : Failure)
    → is_pending process.session_id c ≡ false
    → execute lib rt process processes script c ≡ (after, log, returned f)
    → ((b : Bool) (params : Bytes) → ¬ IsIn (runs b params) log)
    → locked (life ecdsa_keygen log) free ≡ ends
execute-ends lib rt process processes script c after log f new done fresh =
    elim (execute-release lib rt process processes script c).0 [
      | inl (old, same) ↦ absurd (cc)
      | inr (same, is) ↦
          released-ends process processes after log f (subst (IsReleased process processes) done is)
            fresh
    ]

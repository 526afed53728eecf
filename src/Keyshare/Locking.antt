-- ===== src/Keyshare/Locking.antt =====
-- The lock of a key share (LockKeyshare and UnlockKeyshare of tss_util/keyshare), and where the processes
-- of tss_util/tss take it and give it back.
pub mod Lives
use binance_tss_demo.Prelude.{Bool, Bytes, List, [], ◌∷◌, ◌++◌}
use binance_tss_demo.Coordinator.Effects.{
  Effect, Log, subscribed, unsubscribed, initiate_sent, start_sent, ready_sent, runs,
  session_closed, stopped,
}

-- Go's sync.Mutex.
pub data Mutex : Type 0 where
  free held : Mutex

pub data Op : Type 0 where
  lock_keyshare unlock_keyshare : Op

-- The mutex after some calls by one task: a call of Lock on a held mutex waits, and Unlock on a free one
-- ends the program.
pub data Locked : Type 0 where
  now : Mutex → Locked
  waits ends : Locked

unfoldable pub locked : List Op → Mutex → Locked
locked [] m = now m
locked (lock_keyshare ∷ ops) free = locked ops held
locked (lock_keyshare ∷ ops) held = waits
locked (unlock_keyshare ∷ ops) free = ends
locked (unlock_keyshare ∷ ops) held = locked ops free

-- What a kind of process does to the lock of its key share when it is made, when it is run and when it
-- is stopped.
pub record Locking : Type 0 where
  pub on_new : List Op
  pub on_run : List Op
  pub on_stop : List Op

unfoldable pub ecdsa_keygen : Locking
ecdsa_keygen = record { on_new = []; on_run = lock_keyshare ∷ []; on_stop = unlock_keyshare ∷ [] }

unfoldable pub ecdsa_signing : Locking
ecdsa_signing = record { on_new = lock_keyshare ∷ unlock_keyshare ∷ []; on_run = []; on_stop = [] }

unfoldable pub ecdsa_resharing : Locking
ecdsa_resharing = record {
  on_new = lock_keyshare ∷ [];
  on_run = [];
  on_stop = unlock_keyshare ∷ [];
}

unfoldable pub frost_keygen : Locking
frost_keygen = record { on_new = lock_keyshare ∷ []; on_run = []; on_stop = unlock_keyshare ∷ [] }

unfoldable pub frost_signing : Locking
frost_signing = record { on_new = lock_keyshare ∷ unlock_keyshare ∷ []; on_run = []; on_stop = [] }

unfoldable pub frost_resharing : Locking
frost_resharing = record {
  on_new = lock_keyshare ∷ [];
  on_run = [];
  on_stop = unlock_keyshare ∷ [];
}

-- What the effects of the coordinator on one process do to the lock.
effect_ops : Locking → Effect → List Op
effect_ops k (runs coordinator params) = k.on_run
effect_ops k (stopped session_id) = k.on_stop
effect_ops k e = []

unfoldable pub log_ops : Locking → Log → List Op
unfolding effect_ops
log_ops k [] = []
log_ops k (e ∷ log) = effect_ops k e ++ log_ops k log

-- A process that is made and then given to the coordinator.
unfoldable pub life : Locking → Log → List Op
unfolding log_ops
life k log = k.on_new ++ log_ops k log

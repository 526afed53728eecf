-- ===== src/Process.antt =====
-- The interface of a threshold process (TssProcess of tss_util/tss/coordinator.go), its errors
-- (tss_util/tss/errors.go, tss_util/comm/errors.go) and the libraries that run it.
use binance_tss_demo.Prelude.{Bool, Bytes, List, Option, none, Result, ok, ◌≡◌, All}
use binance_tss_demo.Peers.{PeerId}

-- The errors that the coordinator tells apart; `tss_error` is tss-lib's, with the ids of the
-- culprits, and `other` is any other error.
pub data Error : Type 0 where
  coordinator_error : PeerId → Error
  communication_error : PeerId → Error
  tss_error : List Bytes → Error
  subset_error : PeerId → Error
  other : Bytes → Error

-- A Go `error`: `none` is nil.
abbrev pub Failure : Type 0
Failure = Option Error

-- `run` is what a call of Run returns, given the coordinator flag and the start parameters.
pub record TssProcess : Type 0 where
  pub session_id : Bytes
  pub valid_coordinators : List PeerId
  pub retryable : Bool
  pub ready : List PeerId → List PeerId → Result Error Bool
  pub start_params : List PeerId → Bytes
  pub run : Bool → Bytes → Failure

-- conc's `pool.Wait` on what the tasks return, and the JSON text of a start message.
pub record Runtime : Type 0 where
  pub pool_wait : List Failure → Failure
  pub marshal_start : Bytes → Result Error Bytes
  pub unmarshal_start : Bytes → Result Error Bytes

-- A start message is read back as it was written.
pub record IsRuntime (rt : Runtime) : Type 0 where
  pub start_round :
      (params bytes : Bytes)
      → rt.marshal_start params ≡ ok bytes
      → rt.unmarshal_start bytes ≡ ok params

-- The pool returns no error only if no task did.
pub record IsPool (rt : Runtime) : Type 0 where
  pub no_error : (fs : List Failure) → rt.pool_wait fs ≡ none → All (λ f. f ≡ none) fs

-- ===== src/Message.antt =====
-- tss_util/comm/messages.go and tss_util/comm/communication.go: message types and wrapped messages.
use binance_tss_demo.Prelude.{ℕ, Bool, true, Bytes, codes, Comparable, nat_eq, ◌≡◌, ◌↔◌, arith}
use binance_tss_demo.Peers.{PeerId}

pub data MessageType : Type 0 where
  tss_key_gen_msg tss_key_sign_msg tss_initiate_msg tss_start_msg tss_fail_msg : MessageType
  tss_ready_msg tss_reshare_msg coordinator_election_msg coordinator_alive_msg : MessageType
  coordinator_leave_msg coordinator_select_msg coordinator_ping_msg : MessageType
  coordinator_ping_response_msg unknown : MessageType

-- The `iota` of each constant.
abbrev pub number : MessageType → ℕ
number tss_key_gen_msg = 0
number tss_key_sign_msg = 1
number tss_initiate_msg = 2
number tss_start_msg = 3
number tss_fail_msg = 4
number tss_ready_msg = 5
number tss_reshare_msg = 6
number coordinator_election_msg = 7
number coordinator_alive_msg = 8
number coordinator_leave_msg = 9
number coordinator_select_msg = 10
number coordinator_ping_msg = 11
number coordinator_ping_response_msg = 12
number unknown = 13

-- `String`.
unfoldable pub type_string : MessageType → Bytes
type_string tss_key_gen_msg = codes "TssKeyGenMsg"
type_string tss_key_sign_msg = codes "TssKeySignMsg"
type_string tss_initiate_msg = codes "TssInitiateMsg"
type_string tss_start_msg = codes "TssStartMsg"
type_string tss_fail_msg = codes "TssFailMsg"
type_string tss_ready_msg = codes "TssReadyMsg"
type_string tss_reshare_msg = codes "TssReshareMsg"
type_string coordinator_election_msg = codes "CoordinatorElectionMsg"
type_string coordinator_alive_msg = codes "CoordinatorAliveMsg"
type_string coordinator_leave_msg = codes "CoordinatorLeaveMsg"
type_string coordinator_select_msg = codes "CoordinatorSelectMsg"
type_string coordinator_ping_msg = codes "CoordinatorPingMsg"
type_string coordinator_ping_response_msg = codes "CoordinatorPingResponseMsg"
type_string unknown = codes "UnknownMsg"

abbrev type_eq : MessageType → MessageType → Bool
type_eq a b = nat_eq (number a) (number b)

pub type_eq_iff : (a b : MessageType) → (type_eq a b ≡ true) ↔ (a ≡ b)
type_eq_iff a b = ground arith

instance abbrev pub type_Comparable : Comparable MessageType
type_Comparable = record { equal = type_eq; equal_iff = type_eq_iff }

pub record WrappedMessage : Type 0 where
  pub message_type : MessageType
  pub session_id : Bytes
  pub payload : Bytes
  pub from : PeerId

-- ===== src/Comm/SubscriptionId.antt =====
-- tss_util/comm/subID.go.
pub mod Laws
use binance_tss_demo.Prelude.{
  ℕ, zero, suc, ◌+◌, ◌%◌, ◌^◌, Bool, true, false, Bytes, List, [], ◌∷◌, ◌++◌, Option, none, some,
  Result, ok, err, leb, ltb, nat_eq, if◌then◌else◌, codes, length,
}
use binance_tss_demo.Message.{
  MessageType, number, tss_key_gen_msg, tss_key_sign_msg, tss_initiate_msg, tss_start_msg,
  tss_fail_msg, tss_ready_msg, tss_reshare_msg, coordinator_election_msg, coordinator_alive_msg,
  coordinator_leave_msg, coordinator_select_msg, coordinator_ping_msg,
  coordinator_ping_response_msg, unknown,
}
use binance_tss_demo.Strconv.Decimal.{decimal, parse_int8}

-- A Go `string`.
abbrev pub SubscriptionId : Type 0
SubscriptionId = Bytes

-- `strings.Split` at `-`.
in_front : ℕ → List Bytes → List Bytes
in_front c [] = (c ∷ []) ∷ []
in_front c (part ∷ parts) = (c ∷ part) ∷ parts

unfoldable pub split : Bytes → List Bytes
unfolding in_front
split [] = [] ∷ []
split (c ∷ cs) = let rest = split cs in if nat_eq c 45 then [] ∷ rest else in_front c rest

-- `NewSubscriptionID`, at a time in nanoseconds.
unfoldable pub new_subscription_id : Bytes → MessageType → ℕ → SubscriptionId
new_subscription_id session_id msg_type now =
    session_id ++ (45 ∷ (decimal (number msg_type) ++ (45 ∷ decimal (now % 2 ^ 32))))

-- `MessageType(n)` for the numbers up to `Unknown`.
unfoldable pub of_number : ℕ → MessageType
of_number zero = tss_key_gen_msg
of_number (suc zero) = tss_key_sign_msg
of_number (suc (suc zero)) = tss_initiate_msg
of_number (suc (suc (suc zero))) = tss_start_msg
of_number (suc (suc (suc (suc zero)))) = tss_fail_msg
of_number (suc (suc (suc (suc (suc zero))))) = tss_ready_msg
of_number (suc (suc (suc (suc (suc (suc zero)))))) = tss_reshare_msg
of_number (suc (suc (suc (suc (suc (suc (suc zero))))))) = coordinator_election_msg
of_number (suc (suc (suc (suc (suc (suc (suc (suc zero)))))))) = coordinator_alive_msg
of_number (suc (suc (suc (suc (suc (suc (suc (suc (suc zero))))))))) = coordinator_leave_msg
of_number (suc (suc (suc (suc (suc (suc (suc (suc (suc (suc zero)))))))))) = coordinator_select_msg
of_number (suc (suc (suc (suc (suc (suc (suc (suc (suc (suc (suc n))))))))))) = last_types n
  where
    last_types : ℕ → MessageType
    last_types zero = coordinator_ping_msg
    last_types (suc zero) = coordinator_ping_response_msg
    last_types (suc (suc n)) = unknown

-- `Unwrap` of the three parts, and of any other number of them.
unwrap_type : Bytes → Option ℕ → Bytes → Result Bytes (Bytes × MessageType × Bytes)
unfolding of_number
unwrap_type session_id none id = err (codes "not a number")
unwrap_type session_id (some n) id =
    if ltb 13 n then err (codes "invalid message type") else ok (session_id, of_number n, id)

unwrap_parts : List Bytes → Result Bytes (Bytes × MessageType × Bytes)
unfolding unwrap_type
unwrap_parts (session_id ∷ msg_type ∷ id ∷ []) = unwrap_type session_id (parse_int8 msg_type) id
unwrap_parts _ = err (codes "invalid subscriptionID")

unfoldable pub unwrap : SubscriptionId → Result Bytes (Bytes × MessageType × Bytes)
unfolding unwrap_parts split
unwrap id = unwrap_parts (split id)

-- `SubscriptionIdentifier`: empty if the id does not unwrap.
unfoldable pub subscription_identifier : SubscriptionId → Bytes
unfolding unwrap
subscription_identifier id = elim (unwrap id) [ ok (s, t, i) ↦ i | err e ↦ [] ]

-- `SessionID`: empty if the id does not unwrap.
unfoldable pub session_id : SubscriptionId → Bytes
unfolding unwrap
session_id id = elim (unwrap id) [ ok (s, t, i) ↦ s | err e ↦ [] ]

-- `MessageType`: unknown if the id does not unwrap.
unfoldable pub message_type : SubscriptionId → MessageType
unfolding unwrap
message_type id = elim (unwrap id) [ ok (s, t, i) ↦ t | err e ↦ unknown ]

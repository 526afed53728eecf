-- ===== src/Comm/Subscriptions.antt =====
-- tss_util/comm/p2p/subscription.go. A channel is a number.
pub mod Changes
pub mod Laws
pub mod Leak
pub mod Refines
use binance_tss_demo.Prelude.{
  ℕ, Bool, Bytes, List, [], ◌∷◌, Option, none, some, Result, ok, err, map, bytes_Comparable,
}
use binance_tss_demo.Prelude.Maps.{lookup, insert, delete}
use binance_tss_demo.Message.{MessageType, type_Comparable}
use binance_tss_demo.Comm.SubscriptionId.{
  SubscriptionId, new_subscription_id, unwrap, subscription_identifier,
}

abbrev pub Channels : Type 0
Channels = List (Bytes × ℕ)

-- `SessionSubscriptionManager`: session id, message type, subscription identifier.
abbrev pub Subscribers : Type 0
Subscribers = List (Bytes × List (MessageType × Channels))

-- `subscribersMap[sessionID]` and `subscribersMap[sessionID][msgType]`; what is missing reads empty.
abbrev pub of_session : Subscribers → Bytes → List (MessageType × Channels)
of_session m session_id = elim (lookup session_id m) [ some types ↦ types | none ↦ [] ]

abbrev or_empty : Option Channels → Channels
or_empty (some channels) = channels
or_empty none = []

unfoldable pub channels_of : Subscribers → Bytes → MessageType → Channels
channels_of m session_id msg_type = or_empty (lookup msg_type (of_session m session_id))

-- Both maps are made when they are missing.
unfoldable pub put_channels : Subscribers → Bytes → MessageType → Channels → Subscribers
put_channels m session_id msg_type channels =
    insert session_id (insert msg_type channels (of_session m session_id)) m

-- `GetSubscribers`; Go gives the channels in no certain order.
unfoldable pub get_subscribers : Subscribers → Bytes → MessageType → List ℕ
unfolding channels_of
get_subscribers m session_id msg_type = map (λ entry. entry.1) (channels_of m session_id msg_type)

-- `SubscribeTo`, at a time in nanoseconds.
unfoldable pub subscribe_to :
    Subscribers → Bytes → MessageType → ℕ → ℕ → Subscribers × SubscriptionId
unfolding channels_of put_channels
subscribe_to m session_id msg_type channel now =
    let id = new_subscription_id session_id msg_type now in
    (
      put_channels m session_id msg_type
          (insert (subscription_identifier id) channel (channels_of m session_id msg_type)),
      id,
    )

remove : Subscribers → Result Bytes (Bytes × MessageType × Bytes) → Subscribers
unfolding channels_of put_channels
remove m (err e) = m
remove m (ok (session_id, msg_type, id)) =
    let channels = channels_of m session_id msg_type in
    elim (lookup id channels) [
      | none ↦ m
      | some c ↦ put_channels m session_id msg_type (delete id channels)
    ]

unfoldable pub un_subscribe_from : Subscribers → SubscriptionId → Subscribers
unfolding remove
un_subscribe_from m id = remove m (unwrap id)

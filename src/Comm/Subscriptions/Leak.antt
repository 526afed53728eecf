-- ===== src/Comm/Subscriptions/Leak.antt =====
-- Sessions with `-` in their names, such as those of the signing handler.
use binance_tss_demo.Prelude.{
  ℕ, ◌≡◌, ap, ◌∙◌, true, Bytes, [], some, bytes_Comparable, contains, nat_Comparable,
}
use binance_tss_demo.Message.{MessageType, type_Comparable}
use binance_tss_demo.Comm.SubscriptionId.{new_subscription_id, subscription_identifier}
use binance_tss_demo.Comm.SubscriptionId.Laws.{unwrap-new}
use binance_tss_demo.Comm.Subscriptions.{Subscribers, subscribe_to, un_subscribe_from, remove}
use binance_tss_demo.Comm.Subscriptions.Changes.{channel_at}
use binance_tss_demo.Comm.Subscriptions.Laws.{channel_at-subscribe, set_if, set_self}

identifier-dashed :
    (session_id : Bytes) (t : MessageType) (now : ℕ)
    → contains session_id 45 ≡ true
    → subscription_identifier (new_subscription_id session_id t now) ≡ []
unfolding subscription_identifier
identifier-dashed session_id t now h =
    rw (((unwrap-new session_id t now).1 h).1, subscription_identifier)

pub unsubscribe_dashed :
    (m : Subscribers) (session_id : Bytes) (t : MessageType) (now : ℕ)
    → contains session_id 45 ≡ true
    → un_subscribe_from m (new_subscription_id session_id t now) ≡ m
unfolding un_subscribe_from remove
unsubscribe_dashed m session_id t now h = ap (remove m) ((unwrap-new session_id t now).1 h).1

-- In a session with `-` in its name every subscription to a message type stands under the empty
-- identifier, so that the last one replaces those before it, and unsubscribing changes nothing.
pub subscribe_dashed :
    (m : Subscribers) (session_id : Bytes) (t : MessageType) (first second now later : ℕ)
    → contains session_id 45 ≡ true
    → let (m1, id1) = subscribe_to m session_id t first now in
      let (m2, id2) = subscribe_to m1 session_id t second later in
      (channel_at m1 session_id t [] ≡ some first)
      × (channel_at m2 session_id t [] ≡ some second)
      × (un_subscribe_from m2 id1 ≡ m2)
      × (un_subscribe_from m2 id2 ≡ m2)
unfolding subscribe_to
subscribe_dashed m session_id t first second now later h =
    let m1 = (subscribe_to m session_id t first now).0 in
    let m2 = (subscribe_to m1 session_id t second later).0 in
    (
      set m first now,
      set m1 second later,
      unsubscribe_dashed m2 session_id t now h,
      unsubscribe_dashed m2 session_id t later h,
    )
  where
    set :
        (k : Subscribers) (channel at : ℕ)
        → channel_at (subscribe_to k session_id t channel at).0 session_id t [] ≡ some channel
    set k channel at =
        channel_at-subscribe k session_id session_id t t channel at []
        ∙ ap (set_if k session_id session_id t t channel []) (identifier-dashed session_id t at h)
        ∙ set_self k session_id t channel []

-- ===== src/Examples/Subscriptions.antt =====
-- Subscriptions of a session with a plain name, and of one whose name has a dash.
use binance_tss_demo.Prelude.{
  List, ◌∷◌, ℕ, ◌≡◌, refl, true, Bytes, [], codes, some, ok, err, contains, nat_Comparable,
  bytes_Comparable,
}
use binance_tss_demo.Message.{type_Comparable, tss_ready_msg, tss_start_msg}
use binance_tss_demo.Strconv.Decimal.{decimal, parse_int8}
use binance_tss_demo.Comm.SubscriptionId.{new_subscription_id, unwrap}
use binance_tss_demo.Comm.Subscriptions.{
  get_subscribers, Subscribers, subscribe_to, un_subscribe_from,
}
use binance_tss_demo.Comm.Subscriptions.Changes.{channel_at}
use binance_tss_demo.Comm.Subscriptions.Refines.{
  Call, subscribes, unsubscribes, after_calls, view_of, no_channels, subscriptions-refine,
}
use binance_tss_demo.Comm.Subscriptions.Leak.{subscribe_dashed}

abbrev session : Bytes
session = codes "keygen"

abbrev signing : Bytes
signing = codes "sid-sign-1"

abbrev no_subscribers : Subscribers
no_subscribers = []

id_test : new_subscription_id session tss_ready_msg 42 ≡ codes "keygen-5-42"
unfolding new_subscription_id decimal
id_test = refl

unwrap_test : unwrap (codes "keygen-5-42") ≡ ok (session, tss_ready_msg, codes "42")
unfolding unwrap parse_int8
unwrap_test = refl

unwrap_dashed_test : unwrap (codes "sid-sign-1-5-42") ≡ err (codes "invalid subscriptionID")
unfolding unwrap parse_int8
unwrap_dashed_test = refl

subscribe_dashed_example :
    let (m1, id1) = subscribe_to no_subscribers signing tss_ready_msg 7 42 in
    let (m2, id2) = subscribe_to m1 signing tss_ready_msg 8 43 in
    (channel_at m1 signing tss_ready_msg [] ≡ some 7)
    × (channel_at m2 signing tss_ready_msg [] ≡ some 8)
    × (un_subscribe_from m2 id1 ≡ m2)
    × (un_subscribe_from m2 id2 ≡ m2)
subscribe_dashed_example = subscribe_dashed no_subscribers signing tss_ready_msg 7 8 42 43 refl

abbrev calls : List Call
calls =
    subscribes session tss_ready_msg 7 42
    ∷ subscribes session tss_start_msg 8 43
    ∷ unsubscribes session tss_start_msg 43
    ∷ []

subscriptions-refine_example :
    (channel_at (after_calls [] calls) session tss_ready_msg (codes "42")
      ≡ view_of no_channels calls session tss_ready_msg (codes "42"))
    × ((c : ℕ)
        → view_of no_channels calls session tss_ready_msg (codes "42") ≡ some c
        → contains (get_subscribers (after_calls [] calls) session tss_ready_msg) c ≡ true)
subscriptions-refine_example =
    subscriptions-refine calls session tss_ready_msg (codes "42") (refl, (refl, (refl, tt)))

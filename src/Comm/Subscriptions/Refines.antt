-- ===== src/Comm/Subscriptions/Refines.antt =====
-- The manager of subscriptions against the set of subscriptions that it stands for.
use binance_tss_demo.Prelude.{
  ℕ, ◌≡◌, refl, ap, ◌∙◌, true, false, ◌&&◌, Bytes, List, [], ◌∷◌, Option, none, some, ◌%◌, ◌^◌,
  ◌==◌, bytes_Comparable, nat_Comparable, contains, if◌then◌else◌, map, arith,
}
use binance_tss_demo.Prelude.Maps.{lookup}
use binance_tss_demo.Strconv.Decimal.{decimal}
use binance_tss_demo.Message.{MessageType, type_Comparable}
use binance_tss_demo.Comm.SubscriptionId.{new_subscription_id}
use binance_tss_demo.Comm.Subscriptions.{
  Subscribers, Channels, channels_of, get_subscribers, subscribe_to, un_subscribe_from,
}
use binance_tss_demo.Comm.Subscriptions.Changes.{channel_at}
use binance_tss_demo.Comm.Subscriptions.Laws.{
  channel_at-subscribe, channel_at-unsubscribe, identifier-new, set_if,
}

-- The calls: a subscription of a channel at a time, and the end of the one that was made at a time.
pub data Call : Type 0 where
  subscribes : Bytes → MessageType → ℕ → ℕ → Call
  unsubscribes : Bytes → MessageType → ℕ → Call

abbrev pub after_call : Subscribers → Call → Subscribers
after_call m (subscribes session_id t channel now) = (subscribe_to m session_id t channel now).0
after_call m (unsubscribes session_id t now) =
    un_subscribe_from m (new_subscription_id session_id t now)

abbrev pub after_calls : Subscribers → List Call → Subscribers
after_calls m [] = m
after_calls m (call ∷ calls) = after_calls (after_call m call) calls

-- What the manager stands for: the channel of a session, a type and a time in 32 bits, as digits.
abbrev pub View : Type 0
View = Bytes → MessageType → Bytes → Option ℕ

abbrev pub no_channels : View
no_channels session_id t id = none

-- A view that is changed in one place.
abbrev pub changed : View → Bytes → MessageType → ℕ → Option ℕ → View
changed v session_id t now channel sid type id =
    if sid == session_id && type == t
    then (if id == decimal (now % 2 ^ 32) then channel else v sid type id)
    else v sid type id

abbrev pub view_after : View → Call → View
view_after v (subscribes session_id t channel now) = changed v session_id t now (some channel)
view_after v (unsubscribes session_id t now) = changed v session_id t now none

abbrev pub view_of : View → List Call → View
view_of v [] = v
view_of v (call ∷ calls) = view_of (view_after v call) calls

-- The session of a call has no `-` in its name.
abbrev pub IsPlain : Call → Type 0
IsPlain (subscribes session_id t channel now) = contains session_id 45 ≡ false
IsPlain (unsubscribes session_id t now) = contains session_id 45 ≡ false

abbrev pub ArePlain : List Call → Type 0
ArePlain [] = Unit
ArePlain (call ∷ calls) = IsPlain call × ArePlain calls

abbrev IsViewed : Subscribers → View → Type 0
IsViewed m v = (sid : Bytes) (t : MessageType) (id : Bytes) → channel_at m sid t id ≡ v sid t id

after_call-IsViewed :
    (m : Subscribers) (v : View) (call : Call)
    → IsPlain call
    → IsViewed m v
    → IsViewed (after_call m call) (view_after v call)
unfolding subscribe_to
after_call-IsViewed m v (subscribes session_id t channel now) plain same sid type id =
    channel_at-subscribe m session_id sid t type channel now id
    ∙ ap (set_if m session_id sid t type channel id) (identifier-new session_id t now plain)
    ∙ ap
        (λ o.
          if sid == session_id && type == t
          then (if id == decimal (now % 2 ^ 32) then some channel else o)
          else o)
        (same sid type id)
after_call-IsViewed m v (unsubscribes session_id t now) plain same sid type id =
    channel_at-unsubscribe m session_id sid t type now id plain
    ∙ ap
        (λ o.
          if sid == session_id && type == t
          then (if id == decimal (now % 2 ^ 32) then none else o)
          else o)
        (same sid type id)

after_calls-IsViewed :
    (m : Subscribers) (v : View) (calls : List Call)
    → ArePlain calls
    → IsViewed m v
    → IsViewed (after_calls m calls) (view_of v calls)
after_calls-IsViewed m v [] plain same = same
after_calls-IsViewed m v (call ∷ calls) (plain, rest) same =
    after_calls-IsViewed (after_call m call) (view_after v call) calls rest
      (after_call-IsViewed m v call plain same)

lookup-channel :
    (id : Bytes) (channels : Channels) (c : ℕ)
    → lookup id channels ≡ some c
    → contains (map (λ entry. entry.1) channels) c ≡ true
lookup-channel id [] c h = absurd (cc)
lookup-channel id ((other, d) ∷ channels) c h =
    ground (arith, lookup-channel id channels c, nat_Comparable.equal_iff c d)

-- After any calls for sessions without `-` in their names, on a manager without subscriptions, what is
-- looked up is what the calls, one after the other, make of the set of subscriptions; and a channel in
-- that set is among the subscribers of its session and type.
pub subscriptions-refine :
    (calls : List Call) (sid : Bytes) (t : MessageType) (id : Bytes)
    → ArePlain calls
    → (channel_at (after_calls [] calls) sid t id ≡ view_of no_channels calls sid t id)
      × ((c : ℕ)
          → view_of no_channels calls sid t id ≡ some c
          → contains (get_subscribers (after_calls [] calls) sid t) c ≡ true)
unfolding get_subscribers channels_of
subscriptions-refine calls sid t id plain =
    let same = after_calls-IsViewed [] no_channels calls plain empty sid t id in
    (same, λ c at. lookup-channel id (channels_of (after_calls [] calls) sid t) c (same ∙ at))
  where
    empty : IsViewed [] no_channels
    empty sid t id = refl

-- ===== src/Comm/Subscriptions/Laws.antt =====
-- The subscriptions as a function from session, message type and identifier to channels.
use mathlib.Core.Path.{ap₂}
use binance_tss_demo.Prelude.{
  ℕ, ◌%◌, ◌^◌, ◌≡◌, refl, ap, ◌∙◌, sym, Bool, true, false, ◌&&◌, Bytes, Option, none, some, ok,
  if◌then◌else◌, ◌==◌, bytes_Comparable, contains, nat_Comparable, eq_refl, Option-cases, inl, inr,
}
use binance_tss_demo.Prelude.Maps.{insert, delete, lookup-insert, lookup-delete}
use binance_tss_demo.Message.{MessageType, type_Comparable}
use binance_tss_demo.Strconv.Decimal.{decimal}
use binance_tss_demo.Comm.SubscriptionId.{new_subscription_id, subscription_identifier}
use binance_tss_demo.Comm.SubscriptionId.Laws.{unwrap-new}
use binance_tss_demo.Comm.Subscriptions.{
  Subscribers, channels_of, subscribe_to, remove, un_subscribe_from,
}
use binance_tss_demo.Comm.Subscriptions.Changes.{channel_at, both_true, channel_at-change}

-- Subscribing sets one channel, under the identifier of the id that it returns.
pub channel_at-subscribe :
    (m : Subscribers) (session_id sid : Bytes) (msg_type t : MessageType) (channel now : ℕ)
    (i : Bytes)
    → let (m', id) = subscribe_to m session_id msg_type channel now in
      channel_at m' sid t i ≡ (
        if sid == session_id && t == msg_type
        then (if i == subscription_identifier id then some channel else channel_at m sid t i)
        else channel_at m sid t i)
unfolding subscribe_to
channel_at-subscribe m session_id sid msg_type t channel now i =
    let id = subscription_identifier (new_subscription_id session_id msg_type now) in
    channel_at-change (insert id channel) m session_id sid msg_type t i
    ∙ ap (λ o. if sid == session_id && t == msg_type then o else channel_at m sid t i)
        (lookup-insert id i channel (channels_of m sid t))

-- Nothing changes where nothing is subscribed.
absent_at :
    (m : Subscribers) (session_id sid : Bytes) (msg_type t : MessageType) (id i : Bytes)
    → channel_at m session_id msg_type id ≡ none
    → channel_at m sid t i ≡ (
        if sid == session_id && t == msg_type
        then (if i == id then none else channel_at m sid t i)
        else channel_at m sid t i)
absent_at m session_id sid msg_type t id i e =
    chosen (sid == session_id && t == msg_type) (i == id) (both_true sid session_id t msg_type)
      (bytes_Comparable.equal_iff i id).0
  where
    chosen :
        (b c : Bool)
        → (b ≡ true → (sid ≡ session_id) × (t ≡ msg_type))
        → (c ≡ true → i ≡ id)
        → channel_at m sid t i
          ≡ (if b then (if c then none else channel_at m sid t i) else channel_at m sid t i)
    chosen false c p q = refl
    chosen true false p q = refl
    chosen true true p q =
        let (s, u) = p refl in
        ap₂ (λ x y. channel_at m x y i) s u ∙ ap (channel_at m session_id msg_type) (q refl) ∙ e

channel_at-remove :
    (m : Subscribers) (session_id sid : Bytes) (msg_type t : MessageType) (id i : Bytes)
    → channel_at (remove m (ok (session_id, msg_type, id))) sid t i ≡ (
        if sid == session_id && t == msg_type
        then (if i == id then none else channel_at m sid t i)
        else channel_at m sid t i)
unfolding remove channels_of
channel_at-remove m session_id sid msg_type t id i =
    elim (Option-cases (channel_at m session_id msg_type id)) [
      | inl e ↦ rw (e, remove) (absent_at m session_id sid msg_type t id i e)
      | inr (c, e) ↦
          rw (e, remove)
            (channel_at-change (delete id) m session_id sid msg_type t i
              ∙ ap (λ o. if sid == session_id && t == msg_type then o else channel_at m sid t i)
                  (lookup-delete id i (channels_of m sid t)))
    ]

-- Unsubscribing removes that channel and no other, if the session has no `-` in its name.
pub channel_at-unsubscribe :
    (m : Subscribers) (session_id sid : Bytes) (msg_type t : MessageType) (now : ℕ) (i : Bytes)
    → contains session_id 45 ≡ false
    → channel_at (un_subscribe_from m (new_subscription_id session_id msg_type now)) sid t i ≡ (
        if sid == session_id && t == msg_type
        then (if i == decimal (now % 2 ^ 32) then none else channel_at m sid t i)
        else channel_at m sid t i)
unfolding un_subscribe_from
channel_at-unsubscribe m session_id sid msg_type t now i h =
    ap (λ u. channel_at (remove m u) sid t i) ((unwrap-new session_id msg_type now).0 h)
    ∙ channel_at-remove m session_id sid msg_type t (decimal (now % 2 ^ 32)) i

pub identifier-new :
    (session_id : Bytes) (t : MessageType) (now : ℕ)
    → contains session_id 45 ≡ false
    → subscription_identifier (new_subscription_id session_id t now) ≡ decimal (now % 2 ^ 32)
unfolding subscription_identifier
identifier-new session_id t now h = rw ((unwrap-new session_id t now).0 h, subscription_identifier)

abbrev pub set_if :
    Subscribers → Bytes → Bytes → MessageType → MessageType → ℕ → Bytes → Bytes → Option ℕ
set_if m session_id sid msg_type t channel i id =
    if sid == session_id && t == msg_type
    then (if i == id then some channel else channel_at m sid t i)
    else channel_at m sid t i

abbrev clear_if : Bytes → Bytes → MessageType → MessageType → Bytes → Bytes → Option ℕ → Option ℕ
clear_if session_id sid msg_type t id i o =
    if sid == session_id && t == msg_type then (if i == id then none else o) else o

pub set_self :
    (m : Subscribers) (session_id : Bytes) (msg_type : MessageType) (channel : ℕ) (id : Bytes)
    → set_if m session_id session_id msg_type msg_type channel id id ≡ some channel
set_self m session_id msg_type channel id =
    chosen (eq_refl session_id) (eq_refl msg_type) (eq_refl id)
  where
    chosen :
        {a b c : Bool}
        → a ≡ true
        → b ≡ true
        → c ≡ true
        → (if a && b
            then (if c then some channel else channel_at m session_id msg_type id)
            else channel_at m session_id msg_type id)
          ≡ some channel
    chosen p q r = rw (p, q, r)

set_clear :
    (b c : Bool) (channel : ℕ) (o : Option ℕ)
    → (let set = if b then (if c then some channel else o) else o in
        if b then (if c then none else set) else set)
      ≡ (if b then (if c then none else o) else o)
set_clear false c channel o = refl
set_clear true false channel o = refl
set_clear true true channel o = refl

-- A subscription of a session without `-` in its name: the channel is subscribed under an identifier
-- of the time, and unsubscribing with the id returned takes back what subscribing did, if the
-- identifier was not in use.
pub subscribe-unsubscribe :
    (m : Subscribers) (session_id sid : Bytes) (msg_type t : MessageType) (channel now : ℕ)
    (i : Bytes)
    → contains session_id 45 ≡ false
    → channel_at m session_id msg_type (decimal (now % 2 ^ 32)) ≡ none
    → let (m', id) = subscribe_to m session_id msg_type channel now in
      (channel_at m' session_id msg_type (decimal (now % 2 ^ 32)) ≡ some channel)
      × (channel_at (un_subscribe_from m' id) sid t i ≡ channel_at m sid t i)
unfolding subscribe_to
subscribe-unsubscribe m session_id sid msg_type t channel now i h fresh =
    let d = decimal (now % 2 ^ 32) in
    let m' = (subscribe_to m session_id msg_type channel now).0 in
    let at = λ (s : Bytes) (u : MessageType) (j : Bytes).
      channel_at-subscribe m session_id s msg_type u channel now j
      ∙ ap (set_if m session_id s msg_type u channel j)
          (identifier-new session_id msg_type now h) in
    (
      at session_id msg_type d ∙ set_self m session_id msg_type channel d,
      channel_at-unsubscribe m' session_id sid msg_type t now i h
          ∙ ap (clear_if session_id sid msg_type t d i) (at sid t i)
          ∙ set_clear (sid == session_id && t == msg_type) (i == d) channel (channel_at m sid t i)
          ∙ sym (absent_at m session_id sid msg_type t d i fresh),
    )

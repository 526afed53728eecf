-- ===== src/Comm/Subscriptions/Changes.antt =====
-- What a change of the channels of one session and message type does.
use mathlib.Core.Path.{ap₂}
use binance_tss_demo.Prelude.{
  ℕ, ◌≡◌, refl, ap, ◌∙◌, sym, Bool, true, false, ◌&&◌, Bytes, Option, some, if◌then◌else◌, arith,
  ◌==◌, bytes_Comparable, nat_Comparable,
}
use binance_tss_demo.Prelude.Maps.{lookup, insert, lookup-insert}
use binance_tss_demo.Message.{MessageType, type_Comparable}
use binance_tss_demo.Comm.Subscriptions.{
  Subscribers, Channels, of_session, channels_of, put_channels, or_empty,
}

of_session-put :
    (m : Subscribers) (session_id sid : Bytes) (msg_type : MessageType) (channels : Channels)
    → of_session (put_channels m session_id msg_type channels) sid ≡ (
        if sid == session_id
        then insert msg_type channels (of_session m session_id)
        else of_session m sid)
unfolding put_channels
of_session-put m session_id sid msg_type channels =
    ground
      (arith, lookup-insert session_id sid (insert msg_type channels (of_session m session_id)) m)

-- `or_empty` of a choice.
or_empty-if :
    (b : Bool) (channels : Channels) (o : Option Channels)
    → or_empty (if b then some channels else o) ≡ (if b then channels else or_empty o)
or_empty-if true channels o = refl
or_empty-if false channels o = refl

pub channels_of-put :
    (m : Subscribers) (session_id sid : Bytes) (msg_type t : MessageType) (channels : Channels)
    → channels_of (put_channels m session_id msg_type channels) sid t
      ≡ (if sid == session_id && t == msg_type then channels else channels_of m sid t)
unfolding channels_of
channels_of-put m session_id sid msg_type t channels =
    ap (λ types. or_empty (lookup t types)) (of_session-put m session_id sid msg_type channels)
    ∙ chosen (sid == session_id) (bytes_Comparable.equal_iff sid session_id).0
  where
    chosen :
        (b : Bool)
        → (b ≡ true → sid ≡ session_id)
        → or_empty (
            lookup t
              (if b then insert msg_type channels (of_session m session_id) else of_session m sid))
          ≡ (if b && t == msg_type then channels else or_empty (lookup t (of_session m sid)))
    chosen false e = refl
    chosen true e =
        ap or_empty (lookup-insert msg_type t channels (of_session m session_id))
        ∙ or_empty-if (t == msg_type) channels (lookup t (of_session m session_id))
        ∙ ap (λ s. if t == msg_type then channels else or_empty (lookup t (of_session m s)))
            (sym (e refl))

-- The channel of a subscription.
abbrev pub channel_at : Subscribers → Bytes → MessageType → Bytes → Option ℕ
channel_at m session_id msg_type id = lookup id (channels_of m session_id msg_type)

pub both_true :
    (sid session_id : Bytes) (t msg_type : MessageType)
    → (sid == session_id && t == msg_type) ≡ true
    → (sid ≡ session_id) × (t ≡ msg_type)
both_true sid session_id t msg_type h = (
  (bytes_Comparable.equal_iff sid session_id).0 (ground arith),
  (type_Comparable.equal_iff t msg_type).0 (and_right (sid == session_id) h),
)
  where
    and_right : (b : Bool) {c : Bool} → (b && c) ≡ true → c ≡ true
    and_right true h = h
    and_right false h = cc

-- A change of the channels of one session and message type, seen at any other.
pub channel_at-change :
    (change : Channels → Channels) (m : Subscribers) (session_id sid : Bytes)
    (msg_type t : MessageType) (i : Bytes)
    → channel_at
        (put_channels m session_id msg_type (change (channels_of m session_id msg_type)))
        sid
        t
        i
      ≡ (if sid == session_id && t == msg_type
          then lookup i (change (channels_of m sid t))
          else channel_at m sid t i)
channel_at-change change m session_id sid msg_type t i =
    ap (lookup i)
      (channels_of-put m session_id sid msg_type t (change (channels_of m session_id msg_type)))
    ∙ chosen (sid == session_id && t == msg_type) (both_true sid session_id t msg_type)
  where
    chosen :
        (b : Bool)
        → (b ≡ true → (sid ≡ session_id) × (t ≡ msg_type))
        → lookup i (if b then change (channels_of m session_id msg_type) else channels_of m sid t)
          ≡ (if b then lookup i (change (channels_of m sid t)) else channel_at m sid t i)
    chosen false e = refl
    chosen true e =
        let (p, q) = e refl in ap₂ (λ s u. lookup i (change (channels_of m s u))) (sym p) (sym q)

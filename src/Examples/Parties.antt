-- ===== src/Examples/Parties.antt =====
-- Messages between parties.
use binance_tss_demo.Prelude.{
  ◌≡◌, refl, ap, ◌∙◌, sym, ℕ, zero, suc, ◌+◌, Bool, true, false, Bytes, List, [], ◌∷◌, none, Result,
  ok, err, length, codes, if◌then◌else◌, bytes_Comparable,
}
use binance_tss_demo.Prelude.Maps.{lookup}
use binance_tss_demo.Peers.{peers_from_ids}
use binance_tss_demo.Message.{WrappedMessage, tss_key_sign_msg}
use binance_tss_demo.Process.{Error, other}
use binance_tss_demo.Ecdsa.Messages.{
  TssMessage, TssJson, Update, Updated, updated, InEvent, OutMessage, OutEvent, Sent, sent_for,
  process_inbound_messages, broadcast_peers,
}
use binance_tss_demo.Ecdsa.Messages.Inbound.{Follows, inbound-Follows}
use binance_tss_demo.Ecdsa.Messages.Outbound.{IsTssJson, sent-received}
use binance_tss_demo.Examples.World.{p1, p2, sid, lib, up}

-- The flag, then the bytes.
abbrev flag_first : TssMessage → Bytes
flag_first m = (if m.is_broadcast then 1 else 0) ∷ m.msg_bytes

abbrev read_flag : Bytes → Result Error TssMessage
read_flag [] = err (other (codes "unexpected end"))
read_flag (zero ∷ rest) = ok (record { msg_bytes = rest; is_broadcast = false })
read_flag (suc n ∷ rest) = ok (record { msg_bytes = rest; is_broadcast = true })

abbrev tss_json : TssJson
tss_json = record { marshal = λ m. ok (flag_first m); unmarshal = read_flag }

read_flag-first :
    (b : Bool) (bytes : Bytes)
    → read_flag (flag_first (record { msg_bytes = bytes; is_broadcast = b }))
      ≡ ok (record { msg_bytes = bytes; is_broadcast = b })
read_flag-first true bytes = refl
read_flag-first false bytes = refl

same_text : (a b : Bytes) → ◌≡◌ {A = Result Error Bytes} (ok a) (ok b) → a ≡ b
same_text a b e = cc

tss_json-IsTssJson : IsTssJson tss_json
tss_json-IsTssJson = record {
  round_trip = λ m bytes e.
      ap read_flag (sym (same_text (flag_first m) bytes e))
      ∙ read_flag-first m.is_broadcast m.msg_bytes;
}

abbrev store : List (Bytes × Bytes)
store = (p1, codes "one") ∷ (p2, codes "two") ∷ []

-- A party that counts the bytes it has taken.
abbrev count : ℕ → Update → Updated ℕ
count n u = updated (n + length u.wire)

abbrev from_p1 : WrappedMessage
from_p1 = record {
  message_type = tss_key_sign_msg;
  session_id = sid;
  payload = 1 ∷ 65 ∷ 66 ∷ [];
  from = p1;
}

abbrev unreadable : WrappedMessage
unreadable = record from_p1 { payload = [] }

abbrev incoming : List InEvent
incoming = InEvent.message from_p1 ∷ InEvent.message unreadable ∷ InEvent.message from_p1 ∷ []

inbound_test : (process_inbound_messages lib tss_json count store 0 incoming).0 ≡ 2
unfolding process_inbound_messages
inbound_test = refl

inbound-Follows_example :
    Follows lib tss_json count store 0
      (from_p1 ∷ unreadable ∷ from_p1 ∷ [])
      false
      (process_inbound_messages lib tss_json count store 0 incoming)
inbound-Follows_example = inbound-Follows lib tss_json count store 0 incoming

abbrev to_p2 : OutMessage
to_p2 = record { wire_bytes = ok (65 ∷ 66 ∷ [], true); is_broadcast = false; to = p2 ∷ [] }

abbrev outgoing : List OutEvent
outgoing = OutEvent.out to_p2 none ∷ OutEvent.done ∷ []

abbrev sent : Sent
sent = record { peers = p2 ∷ []; payload = 1 ∷ 65 ∷ 66 ∷ [] }

sent_test : sent_for lib tss_json up to_p2 ≡ ok sent
unfolding sent_for broadcast_peers peers_from_ids
sent_test = refl

sent-received_example :
    (if false then p2 ∷ [] ≡ up else (peers_from_ids lib (p2 ∷ []) ≡ ok (p2 ∷ [])))
    × ((wire : Bytes) × (routed : Bool) × (to_p2.wire_bytes ≡ ok (wire, routed))
        × (tail : List Update) × ((process_inbound_messages lib tss_json count store 0
              (InEvent.message from_p1 ∷ [])).1
            ≡ record { wire = wire; party = lookup p1 store; broadcast = routed } ∷ tail))
sent-received_example =
    sent-received lib tss_json up to_p2 sent count store 0 from_p1 [] tss_json-IsTssJson sent_test
      refl

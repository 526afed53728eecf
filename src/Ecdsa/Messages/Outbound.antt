-- ===== src/Ecdsa/Messages/Outbound.antt =====
-- What is sent for the messages of the party, and what the other side makes of it.
use binance_tss_demo.Prelude.{
  ◌≡◌, refl, ap, Bool, true, false, Bytes, List, [], ◌∷◌, ◌++◌, none, some, Result, ok, err, length,
  suc, ℕ, if◌then◌else◌, arith, bytes_Comparable, ◌∙◌,
}
use binance_tss_demo.Prelude.Maps.{lookup}
use binance_tss_demo.Peers.{PeerId, PeerLib, peers_from_ids}
use binance_tss_demo.Message.{WrappedMessage}
use binance_tss_demo.Process.{Error, Failure}
use binance_tss_demo.Coordinator.Effects.{Outcome, waiting}
use binance_tss_demo.Ecdsa.Messages.{
  TssMessage, TssJson, Update, Updated, updated, refused, panicked, InEvent, on_updated, on_message,
  process_inbound_messages, OutMessage, OutEvent, out, done, Sent, on_sent, broadcast_peers,
  as_error, encoded, addressed, sent_for, process_outbound_messages, update_of,
}

-- A message is read back as it was written.
pub record IsTssJson (json : TssJson) : Type 0 where
  pub round_trip :
      (m : TssMessage) (bytes : Bytes) → json.marshal m ≡ ok bytes → json.unmarshal bytes ≡ ok m

-- The messages before the context ends.
abbrev pub given : List OutEvent → List OutMessage
given [] = []
given (done ∷ events) = []
given (out m failure ∷ events) = m ∷ given events

module _ (lib : PeerLib) (json : TssJson) (peers : List PeerId) where
  -- What is to be sent for messages, up to the first for which nothing can be.
  abbrev pub sent_from : Result Error Sent → List Sent → List Sent
  sent_from (err e) xs = []
  sent_from (ok x) xs = x ∷ xs

  abbrev pub sends_for : List OutMessage → List Sent
  sends_for [] = []
  sends_for (m ∷ ms) = sent_from (sent_for lib json peers m) (sends_for ms)

  -- What is sent is the first of what is wanted; while the loop waits, all was sent, one for each of
  -- a number of messages.
  abbrev pub Sends : ℕ → List Sent → List Sent × Outcome → Type 0
  Sends messages wanted result =
      ((rest : List Sent) × (result.0 ++ rest ≡ wanted))
      × (result.1 ≡ waiting → (result.0 ≡ wanted) × (length result.0 ≡ messages))

  on_sent-Sends :
      (n : ℕ) (wanted : List Sent) (r : Result Error Sent) (failure : Failure)
      (next : List Sent × Outcome)
      → Sends n wanted next
      → Sends (suc n) (sent_from r wanted) (on_sent lib json peers r failure next)
  unfolding on_sent
  on_sent-Sends n wanted (err e) failure next sends = (([], refl), λ waits. absurd (cc))
  on_sent-Sends n wanted (ok x) (some e) next sends = ((wanted, refl), λ waits. absurd (cc))
  on_sent-Sends n wanted (ok x) none (sent, outcome) ((rest, p), all) =
      ((rest, ap (◌∷◌ x) p), λ waits. let (c, l) = all waits in (ap (◌∷◌ x) c, ap suc l))

  -- The messages of the party are sent in order, until one cannot be encoded or addressed, sending
  -- one fails, or the context ends; while the loop waits, every message was sent.
  pub outbound-Sends :
      (events : List OutEvent)
      → Sends
          (length (given events))
          (sends_for (given events))
          (process_outbound_messages lib json peers events)
  unfolding process_outbound_messages
  outbound-Sends [] = (([], refl), λ e. (refl, refl))
  outbound-Sends (done ∷ events) = (([], refl), λ e. absurd (cc))
  outbound-Sends (out m failure ∷ events) =
      on_sent-Sends (length (given events)) (sends_for (given events)) (sent_for lib json peers m)
        failure (process_outbound_messages lib json peers events) (outbound-Sends events)

addressed_ok :
    (lib : PeerLib) (json : TssJson) (peers : List PeerId) (payload : Result Error Bytes)
    (to : Result Error (List PeerId)) (x : Sent)
    → addressed lib json peers payload to ≡ ok x
    → (payload ≡ ok (x.payload)) × (to ≡ ok (x.peers))
unfolding addressed
addressed_ok lib json peers (err e) to x h = absurd (cc)
addressed_ok lib json peers (ok b) (err e) x h = absurd (cc)
addressed_ok lib json peers (ok b) (ok ps) x h = (ground arith, ground arith)

encoded_ok :
    (lib : PeerLib) (json : TssJson) (peers : List PeerId) (r : Result Error (Bytes × Bool))
    (payload : Bytes)
    → encoded lib json peers r ≡ ok payload
    → (wire : Bytes) × (routed : Bool) × (r ≡ ok (wire, routed))
      × (json.marshal (record { msg_bytes = wire; is_broadcast = routed }) ≡ ok payload)
unfolding encoded
encoded_ok lib json peers (err e) payload h = absurd (cc)
encoded_ok lib json peers (ok (wire, routed)) payload h = (wire, routed, refl, h)

as_error_ok :
    (lib : PeerLib) (json : TssJson) (peers ps : List PeerId) (b : Bool)
    (r : Result Bytes (List PeerId))
    → (if b then ok peers else as_error lib json peers r) ≡ ok ps
    → if b then ps ≡ peers else (r ≡ ok ps)
unfolding as_error
as_error_ok lib json peers ps true r h = ground arith
as_error_ok lib json peers ps false (ok qs) h = ground arith
as_error_ok lib json peers ps false (err e) h = absurd (cc)

called_with :
    (lib : PeerLib) (json : TssJson) {S : Type 0} (update : S → Update → Updated S)
    (store : List (Bytes × Bytes)) (u : Update) (r : Updated S)
    (next : S → S × List Update × Outcome)
    → (tail : List Update) × ((on_updated lib json update store u r next).1 ≡ u ∷ tail)
unfolding on_updated
called_with lib json update store u (updated t) next = ((next t).1, refl)
called_with lib json update store u (refused t f) next = ([], refl)
called_with lib json update store u (panicked t stack) next = ([], refl)

-- The first call of a loop that takes a message which can be read.
received :
    (lib : PeerLib) (json : TssJson) {S : Type 0} (update : S → Update → Updated S)
    (store : List (Bytes × Bytes)) (s : S) (w : WrappedMessage) (events : List InEvent)
    (m : TssMessage)
    → json.unmarshal w.payload ≡ ok m
    → (tail : List Update) × ((process_inbound_messages lib json update store s
          (InEvent.message w ∷ events)).1
        ≡ update_of lib json update store w.from m ∷ tail)
unfolding process_inbound_messages on_message
received lib json update store s w events m h =
    let u = update_of lib json update store w.from m in
    let (tail, e) =
      called_with lib json update store u (update s u)
        (λ t. process_inbound_messages lib json update store t events) in
    (tail, rw (h, process_inbound_messages, on_message) e)

-- What was sent for a message went to all peers if it is a broadcast, and to the peers of the parties
-- that it is to otherwise; a node that takes it from the sender calls its party with the bytes and the
-- flag of the message, and with the party id that its store has for the sender.
pub sent-received :
    (lib : PeerLib) (json : TssJson) (peers : List PeerId) (m : OutMessage) (x : Sent) {S : Type 0}
    (update : S → Update → Updated S) (store : List (Bytes × Bytes)) (s : S) (w : WrappedMessage)
    (events : List InEvent)
    → IsTssJson json
    → sent_for lib json peers m ≡ ok x
    → w.payload ≡ x.payload
    → (if m.is_broadcast then x.peers ≡ peers else (peers_from_ids lib m.to ≡ ok (x.peers)))
      × ((wire : Bytes) × (routed : Bool) × (m.wire_bytes ≡ ok (wire, routed))
          × (tail : List Update) × ((process_inbound_messages lib json update store s
                (InEvent.message w ∷ events)).1
              ≡ record { wire = wire; party = lookup (lib.pretty w.from) store; broadcast = routed }
                ∷ tail))
unfolding sent_for broadcast_peers as_error
sent-received lib json peers m x update store s w events good e same =
    let (payload, to) = addressed_ok lib json peers _ _ x e in
    let (wire, routed, bytes, marshalled) =
      encoded_ok lib json peers m.wire_bytes x.payload payload in
    let (tail, first_call) =
      received lib json update store s w events _
        (ap json.unmarshal same ∙ good.round_trip _ x.payload marshalled) in
    (
      as_error_ok lib json peers x.peers m.is_broadcast (peers_from_ids lib m.to) to,
      (wire, routed, bytes, tail, first_call),
    )

-- ===== src/Ecdsa/Messages/Inbound.antt =====
-- The calls that incoming messages make.
use binance_tss_demo.Prelude.{
  none, Bool, true, false, ◌≡◌, refl, ap, Bytes, List, [], ◌∷◌, ◌++◌, some, Result, ok, err,
  contains, bytes_Comparable, if◌then◌else◌, arith,
}
use binance_tss_demo.Prelude.Maps.{lookup, insert, lookup-insert}
use binance_tss_demo.Peers.{PeerId, PeerLib}
use binance_tss_demo.Message.{WrappedMessage}
use binance_tss_demo.Process.{Error, Failure, other}
use binance_tss_demo.Coordinator.Effects.{Outcome, waiting, returned}
use binance_tss_demo.Ecdsa.Messages.{
  TssMessage, TssJson, Update, Updated, updated, refused, panicked, InEvent, message, done,
  populate_party_store, on_updated, on_message, process_inbound_messages,
}

-- The messages before the context ends.
abbrev pub told : List InEvent → List WrappedMessage
told [] = []
told (done ∷ events) = []
told (message w ∷ events) = w ∷ told events

-- Whether the context ends.
abbrev pub is_ended : List InEvent → Bool
is_ended [] = false
is_ended (done ∷ events) = true
is_ended (message w ∷ events) = is_ended events

module _ {S : Type 0} (lib : PeerLib) (json : TssJson) (update : S → Update → Updated S)
    (store : List (Bytes × Bytes)) where
  -- The call for a message, with the party id that the store has for the sender.
  abbrev pub call : PeerId → TssMessage → Update
  call from m = record {
    wire = m.msg_bytes;
    party = lookup (lib.pretty from) store;
    broadcast = m.is_broadcast;
  }

  -- Messages that are all read and taken, with their calls, from one party to the next.
  pub data Taken : S → List WrappedMessage → List Update → S → Type 0 where
    none_yet : {s : S} → Taken s [] [] s
    then_next :
        {s t u : S} {w : WrappedMessage} {m : TssMessage} {ws : List WrappedMessage}
        {us : List Update}
        → json.unmarshal w.payload ≡ ok m
        → update s (call w.from m) ≡ updated t
        → Taken t ws us u
        → Taken s (w ∷ ws) (call w.from m ∷ us) u

  -- What is done with the messages that are left, of which the first is the one that stops the loop:
  -- the last call, the party that it leaves, and what the loop returns.
  pub data Stops : S → List WrappedMessage → Bool → List Update → S → Outcome → Type 0 where
    waits : {s : S} → Stops s [] false [] s waiting
    ends : {s : S} → Stops s [] true [] s (returned none)
    unreadable :
        {s : S} {w : WrappedMessage} {ws : List WrappedMessage} {ended : Bool} {e : Error}
        → json.unmarshal w.payload ≡ err e
        → Stops s (w ∷ ws) ended [] s (returned (some e))
    refuses :
        {s t : S} {w : WrappedMessage} {ws : List WrappedMessage} {ended : Bool} {m : TssMessage}
        {f : Failure}
        → json.unmarshal w.payload ≡ ok m
        → update s (call w.from m) ≡ refused t f
        → Stops s (w ∷ ws) ended (call w.from m ∷ []) t (returned f)
    panics :
        {s t : S} {w : WrappedMessage} {ws : List WrappedMessage} {ended : Bool} {m : TssMessage}
        {stack : Bytes}
        → json.unmarshal w.payload ≡ ok m
        → update s (call w.from m) ≡ panicked t stack
        → Stops s (w ∷ ws) ended (call w.from m ∷ []) t (returned (some (other stack)))

  abbrev pub Follows : S → List WrappedMessage → Bool → S × List Update × Outcome → Type 0
  Follows s ms ended (s', calls, outcome) =
      (taken : List WrappedMessage) × (us : List Update) × (t : S) × (rest : List WrappedMessage)
      × (last : List Update) × (ms ≡ taken ++ rest)
      × (calls ≡ us ++ last)
      × Taken s taken us t
      × Stops t rest ended last s' outcome

  on_updated-Follows :
      (s : S) (w : WrappedMessage) (ws : List WrappedMessage) (ended : Bool) (m : TssMessage)
      (r : Updated S) (next : S → S × List Update × Outcome)
      → json.unmarshal w.payload ≡ ok m
      → update s (call w.from m) ≡ r
      → ((t : S) → Follows t ws ended (next t))
      → Follows s (w ∷ ws) ended (on_updated lib json update store (call w.from m) r next)
  unfolding on_updated
  on_updated-Follows s w ws ended m (updated t) next read e follows =
      let (taken, us, u, rest, last, p, q, all, stop) = follows t in
      (
        w ∷ taken,
        call w.from m ∷ us,
        u,
        rest,
        last,
        ap (◌∷◌ w) p,
        ap (◌∷◌ (call w.from m)) q,
        Taken.then_next read e all,
        stop,
      )
  on_updated-Follows s w ws ended m (refused t f) next read e follows =
      ([], [], s, w ∷ ws, _, refl, refl, Taken.none_yet, Stops.refuses read e)
  on_updated-Follows s w ws ended m (panicked t stack) next read e follows =
      ([], [], s, w ∷ ws, _, refl, refl, Taken.none_yet, Stops.panics read e)

  on_message-Follows :
      (s : S) (w : WrappedMessage) (ws : List WrappedMessage) (ended : Bool)
      (r : Result Error TssMessage) (next : S → S × List Update × Outcome)
      → json.unmarshal w.payload ≡ r
      → ((t : S) → Follows t ws ended (next t))
      → Follows s (w ∷ ws) ended (on_message lib json update store s w.from r next)
  unfolding on_message
  on_message-Follows s w ws ended (err e) next read follows =
      ([], [], s, w ∷ ws, [], refl, refl, Taken.none_yet, Stops.unreadable read)
  on_message-Follows s w ws ended (ok m) next read follows =
      on_updated-Follows s w ws ended m (update s (call w.from m)) next read refl follows

  -- The messages up to some are all read and taken by the party, each by a call with the party id that
  -- the store has for its sender, and the loop goes on. It stops at the first that cannot be read, is
  -- refused or makes the party panic, with that error, and no call is made for a later one; if there is
  -- none, it returns without an error if the context ends, and waits otherwise.
  pub inbound-Follows :
      (s : S) (events : List InEvent)
      → Follows s
          (told events)
          (is_ended events)
          (process_inbound_messages lib json update store s events)
  unfolding process_inbound_messages
  inbound-Follows s [] = ([], [], s, [], [], refl, refl, Taken.none_yet, Stops.waits)
  inbound-Follows s (done ∷ events) = ([], [], s, [], [], refl, refl, Taken.none_yet, Stops.ends)
  inbound-Follows s (message w ∷ events) =
      on_message-Follows s w (told events) (is_ended events) (json.unmarshal w.payload)
        (λ t. process_inbound_messages lib json update store t events) refl
        (λ t. inbound-Follows t events)

-- The store finds each party that it was filled with by its id, and else what it had.
pub lookup-populate_party_store :
    (store : List (Bytes × Bytes)) (ids : List Bytes) (id : Bytes)
    → lookup id (populate_party_store store ids)
      ≡ (if contains ids id then some id else lookup id store)
unfolding populate_party_store
lookup-populate_party_store store [] id = refl
lookup-populate_party_store store (first ∷ ids) id = ground (
  arith,
  lookup-populate_party_store (insert first first store) ids id,
  lookup-insert first id first store,
  bytes_Comparable.equal_iff id first,
)

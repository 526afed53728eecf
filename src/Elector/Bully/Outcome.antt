-- ===== src/Elector/Bully/Outcome.antt =====
-- Which coordinator the bully election ends with.
use mathlib.Core.Path.{subst₂}
use binance_tss_demo.Prelude.{
  ◌∙◌, ◌≤◌, ◌≡◌, Bool, true, false, ◌&&◌, List, [], ◌∷◌, contains, bytes_Comparable, arith, ◌==◌,
  if◌then◌else◌, Bool-cases, inl, inr, All, eq_refl, ap,
}
use binance_tss_demo.Peers.{PeerId}
use binance_tss_demo.Message.{
  WrappedMessage, type_Comparable, coordinator_election_msg, coordinator_select_msg,
}
use binance_tss_demo.Session.{PeerMsg}
use binance_tss_demo.Elector.Bully.{
  Bully, index, is_peer_id_higher, set_coordinator, on_received, receive_all,
}

-- The senders of the select messages.
abbrev pub claims : List (WrappedMessage × Bool) → List PeerId
claims [] = []
claims ((msg, answered) ∷ rest) =
    let others = claims rest in
    if msg.message_type == coordinator_select_msg then msg.from ∷ others else others

-- Every election that a received message starts is answered in time.
abbrev pub IsAnswered : WrappedMessage × Bool → Type 0
IsAnswered (msg, answered) = msg.message_type ≡ coordinator_election_msg → answered ≡ true

on_received-kept :
    (bc : Bully) (msg : WrappedMessage) (answered : Bool)
    → let after = (on_received bc msg answered).0 in
      (after.host_id ≡ bc.host_id)
      × (after.session_id ≡ bc.session_id)
      × (after.sorted_peers ≡ bc.sorted_peers)
unfolding on_received set_coordinator
on_received-kept bc msg answered = ground arith

-- Whatever is received, the coordinator is the one before, the host, or one that claimed to be it.
pub receive_all-claimed :
    (bc : Bully) (received : List (WrappedMessage × Bool))
    → contains (bc.coordinator ∷ bc.host_id ∷ claims received) (receive_all bc received).coordinator
      ≡ true
unfolding receive_all on_received set_coordinator
receive_all-claimed bc [] = ground (arith, eq_refl bc.coordinator)
receive_all-claimed bc ((msg, answered) ∷ rest) =
    ground (arith, receive_all-claimed (on_received bc msg answered).0 rest)

on_received-coordinator :
    (bc : Bully) (msg : WrappedMessage) (answered : Bool)
    → IsAnswered (msg, answered)
    → contains (claims ((msg, answered) ∷ [])) bc.host_id ≡ false
    → (on_received bc msg answered).0.coordinator ≡ (
        if msg.message_type == coordinator_select_msg
          && is_peer_id_higher bc msg.from bc.coordinator
        then msg.from
        else bc.coordinator)
unfolding on_received set_coordinator
on_received-coordinator bc msg answered h foreign = ground (
  arith,
  bytes_Comparable.equal_iff bc.host_id msg.from,
  bytes_Comparable.equal_iff msg.from bc.host_id,
)

-- The best of some peers by their index in the session.
abbrev pub IsBest : List PeerMsg → List PeerId → PeerId → Type 0
IsBest ms ps c =
    (contains ps c ≡ true) × ((p : PeerId) → contains ps p ≡ true → index ms c ≤ index ms p)

IsBest-claim :
    (bc : Bully) (c from final : PeerId) (ps : List PeerId)
    → IsBest bc.sorted_peers ((if is_peer_id_higher bc from c then from else c) ∷ ps) final
    → IsBest bc.sorted_peers (c ∷ from ∷ ps) final
unfolding is_peer_id_higher
IsBest-claim bc c from final ps best = (
  ground (arith, best.0),
  λ p h. ground (
    arith,
    best.1 p,
    best.1 c,
    best.1 from,
    eq_refl c,
    eq_refl from,
    bytes_Comparable.equal_iff p c,
    bytes_Comparable.equal_iff p from,
  ),
)

-- One message: what is best of the coordinator after it and the later claims is best of all.
on_received-IsBest :
    (bc : Bully) (msg : WrappedMessage) (answered : Bool) (rest : List (WrappedMessage × Bool))
    (final : PeerId)
    → IsAnswered (msg, answered)
    → contains (claims ((msg, answered) ∷ rest)) bc.host_id ≡ false
    → let after = (on_received bc msg answered).0 in
      IsBest after.sorted_peers (after.coordinator ∷ claims rest) final
      → IsBest bc.sorted_peers (bc.coordinator ∷ claims ((msg, answered) ∷ rest)) final
on_received-IsBest bc msg answered rest final h foreign best =
    elim (Bool-cases (msg.message_type == coordinator_select_msg)) [
      | inl claim ↦
          rw claim (IsBest-claim bc bc.coordinator msg.from final (claims rest) (kept claim))
      | inr other ↦ rw other (kept other)
    ]
  where
    after : Bully
    after = (on_received bc msg answered).0

    next : Bool → PeerId
    next b = if b && is_peer_id_higher bc msg.from bc.coordinator then msg.from else bc.coordinator

    kept :
        {b : Bool}
        → (msg.message_type == coordinator_select_msg) ≡ b
        → IsBest bc.sorted_peers (next b ∷ claims rest) final
    kept e =
        subst₂ (λ ms c. IsBest ms (c ∷ claims rest) final) (on_received-kept bc msg answered).2
          (on_received-coordinator bc msg answered h (ground arith) ∙ ap next e) best

-- With every election answered in time, and no claim by the host itself, the coordinator is the
-- highest of the peers that claimed and of the coordinator before.
pub receive_all-IsBest :
    (bc : Bully) (received : List (WrappedMessage × Bool))
    → All IsAnswered received
    → contains (claims received) bc.host_id ≡ false
    → IsBest bc.sorted_peers
        (bc.coordinator ∷ claims received)
        (receive_all bc received).coordinator
unfolding receive_all
receive_all-IsBest bc [] h foreign = (
  ground (arith, eq_refl bc.coordinator),
  λ p c. ground (arith, bytes_Comparable.equal_iff p bc.coordinator),
)
receive_all-IsBest bc ((msg, answered) ∷ rest) h foreign =
    on_received-IsBest bc msg answered rest _ h.0 foreign (
      receive_all-IsBest (on_received bc msg answered).0 rest h.1
        (rw ((on_received-kept bc msg answered).0) (ground arith)))

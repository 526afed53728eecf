-- ===== src/Examples/Elections.antt =====
-- Elections.
use binance_tss_demo.Prelude.{
  ◌≡◌, refl, Bool, true, false, List, [], ◌∷◌, contains, bytes_Comparable, arith, ◌==◌,
  if◌then◌else◌,
}
use binance_tss_demo.Peers.{PeerId}
use binance_tss_demo.Message.{
  WrappedMessage, MessageType, coordinator_select_msg, coordinator_election_msg,
  coordinator_alive_msg,
}
use binance_tss_demo.Sort.{sort}
use binance_tss_demo.Sort.Unique.{Apart}
use binance_tss_demo.Session.{PeerMsg, hash, sort_peers_for_session, get_peer_ids}
use binance_tss_demo.Session.Order.{session_key}
use binance_tss_demo.Elector.Static.{static_coordinator}
use binance_tss_demo.Elector.Bully.{
  Bully, new_bully, bully_coordinator, index, set_coordinator, on_received,
}
use binance_tss_demo.Elector.Bully.Outcome.{claims}
use binance_tss_demo.Elector.Bully.Agreement.{set_coordinator-outsider, bully_coordinator-agree}
use binance_tss_demo.Elector.Bully.Listen.{dropped, listen, alive_reply-dropped}
use binance_tss_demo.Examples.World.{p1, p2, p3, sid, lib, up, mixed, up-mixed}

static_test : static_coordinator lib sid up ≡ p3
unfolding static_coordinator sort_peers_for_session sort hash
static_test = refl

pub up-Apart : Apart (session_key lib sid) up
unfolding hash
up-Apart = ground arith

abbrev bully : Bully
bully = record {
  session_id = sid;
  host_id = p1;
  coordinator = p1;
  sorted_peers =
      (record { id = p3; session_id = sid })
      ∷ (record { id = p2; session_id = sid })
      ∷ (record { id = p1; session_id = sid })
      ∷ [];
}

abbrev from_peer : MessageType → PeerId → WrappedMessage
from_peer t p = record { message_type = t; session_id = sid; payload = []; from = p }

abbrev heard : List (WrappedMessage × Bool)
heard =
    (from_peer coordinator_select_msg p2, false) ∷ (from_peer coordinator_select_msg p3, false) ∷ []

bully_test : bully_coordinator lib (new_bully sid p1) up false heard ≡ p3
unfolding bully_coordinator new_bully sort_peers_for_session sort hash index
bully_test = refl

abbrev first_msg : PeerMsg
first_msg = record { id = p3; session_id = sid }

abbrev later_msgs : List PeerMsg
later_msgs = (record { id = p2; session_id = sid }) ∷ (record { id = p1; session_id = sid }) ∷ []

set_coordinator-outsider_example :
    (contains (get_peer_ids later_msgs) p1 ≡ true
      → (set_coordinator bully (9 ∷ [])).coordinator ≡ 9 ∷ [])
    × (contains (get_peer_ids later_msgs) p1 ≡ false
        → (set_coordinator bully (9 ∷ [])).coordinator ≡ (if (9 ∷ []) == p1 then 9 ∷ [] else p1))
unfolding get_peer_ids
set_coordinator-outsider_example =
    set_coordinator-outsider bully first_msg later_msgs (9 ∷ []) refl refl

-- The claim of one outsider after that of another is dropped.
second_outsider_test :
    (set_coordinator (set_coordinator bully (9 ∷ [])) (8 ∷ [])).coordinator ≡ 9 ∷ []
unfolding set_coordinator index
second_outsider_test = refl

-- The third peer hears the other two, the later one twice.
abbrev heard_by_third : List (WrappedMessage × Bool)
heard_by_third =
    (from_peer coordinator_select_msg p1, false)
    ∷ (from_peer coordinator_select_msg p2, false)
    ∷ (from_peer coordinator_select_msg p1, false)
    ∷ []

quiet : coordinator_select_msg ≡ coordinator_election_msg → false ≡ true
quiet e = cc

same_peers : (p : PeerId) → contains (p1 ∷ claims heard) p ≡ contains (p3 ∷ claims heard_by_third) p
same_peers p = ground arith

inside_up : (p : PeerId) → contains (p1 ∷ claims heard) p ≡ true → contains up p ≡ true
inside_up p h = ground arith

bully_coordinator-agree_example :
    bully_coordinator lib (new_bully sid p1) up false heard
    ≡ bully_coordinator lib (new_bully sid p3) mixed true heard_by_third
bully_coordinator-agree_example =
    bully_coordinator-agree lib sid up mixed p1 p3 false true heard heard_by_third up-Apart up-mixed
      (quiet, (quiet, tt)) (quiet, (quiet, (quiet, tt))) refl refl same_peers inside_up

abbrev replier : Bully
replier = record bully { host_id = p3; coordinator = p3 }

alive_reply-dropped_example : listen bully (from_peer coordinator_alive_msg p3) ≡ dropped
unfolding on_received index
alive_reply-dropped_example =
    alive_reply-dropped bully replier (from_peer coordinator_election_msg p1)
      (from_peer coordinator_alive_msg p3) true refl refl refl refl refl

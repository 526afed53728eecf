-- ===== src/Session.antt =====
-- tss_util/tss/util/util.go and sort.go: the order of the peers in a session.
pub mod Order
use binance_tss_demo.Prelude.{ℕ, zero, suc, ◌+◌, ◌*◌, Bool, Bytes, List, [], ◌∷◌, ◌++◌, map, ltb}
use binance_tss_demo.Peers.{PeerId, PeerLib}
use binance_tss_demo.Sort.{sort}

pub record PeerMsg : Type 0 where
  pub id : PeerId
  pub session_id : Bytes

be_from : ℕ → ℕ → Bytes → ℕ
be_from zero acc bs = acc
be_from (suc n) acc [] = acc
be_from (suc n) acc (b ∷ bs) = be_from n (acc * 256 + b) bs

-- `binary.BigEndian.Uint64`: the first eight bytes. (Go panics below eight; a hash has 32.)
pub be_uint64 : Bytes → ℕ
unfolding be_from
be_uint64 bs = be_from 8 0 bs

module _ (lib : PeerLib) where
  unfoldable pub hash : PeerMsg → ℕ
  unfolding be_uint64
  hash m = be_uint64 (lib.keccak256 (lib.pretty m.id ++ m.session_id))

  -- `Less`: the greater hash comes first.
  unfoldable pub less : PeerMsg → PeerMsg → Bool
  less a b = ltb (hash b) (hash a)

  unfoldable pub sort_peers_for_session : List PeerId → Bytes → List PeerMsg
  unfolding less
  sort_peers_for_session peers session_id =
      sort less (map (λ p. record { id = p; session_id = session_id }) peers)

unfoldable pub get_peer_ids : List PeerMsg → List PeerId
get_peer_ids ms = map (λ m. m.id) ms

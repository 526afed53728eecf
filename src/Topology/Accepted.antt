-- ===== src/Topology/Accepted.antt =====
-- Which topologies are taken.
use binance_tss_demo.Prelude.{
  zero, suc, ◌<◌, ◌≡◌, ◌↔◌, refl, ap, ◌∙◌, sym, Bytes, List, [], ◌∷◌, ◌++◌, Option, none, some,
  Result, ok, err, ◌>>=◌, ℤ, pos, negsuc, map, arith, Result-cases, inl, inr,
}
use mathlib.Core.List.{append_assoc, append-nil}
use binance_tss_demo.Strconv.ParseInt.{parse_int}
use binance_tss_demo.Topology.{
  AddrInfo, NetworkTopology, RawPeer, RawTopology, parsed, checked_threshold, with_peers,
  topology_of, process_raw_topology,
}

topology_of-accepts :
    (peers : List AddrInfo) (threshold_text : Option ℤ) (nt : NetworkTopology)
    → (topology_of peers threshold_text ≡ ok nt)
      ↔ ((peers ≡ nt.peers) × (threshold_text ≡ some (pos nt.threshold)) × (0 < nt.threshold))
unfolding topology_of parsed checked_threshold
topology_of-accepts peers none nt = ground arith
topology_of-accepts peers (some (negsuc n)) nt = ground arith
topology_of-accepts peers (some (pos zero)) nt = ground arith
topology_of-accepts peers (some (pos (suc n))) nt = ground arith

from_peers :
    (r : Result Bytes (List AddrInfo)) (threshold_text : Option ℤ) (nt : NetworkTopology)
    → (r >>= λ peers. topology_of peers threshold_text) ≡ ok nt
    → (r ≡ ok nt.peers) × (threshold_text ≡ some (pos nt.threshold)) × (0 < nt.threshold)
from_peers (ok peers) threshold_text nt h =
    let (same, read, positive) = (topology_of-accepts peers threshold_text nt).0 h in
    (ap ok same, read, positive)
from_peers (err e) threshold_text nt h = absurd (cc)

module _ (addr_info : Bytes → Result Bytes AddrInfo) where
  abbrev pub read_all : List RawPeer → List (Result Bytes AddrInfo)
  read_all ps = map (λ p. addr_info p.peer_address) ps

  with_peers-next :
      (peers : List AddrInfo) (p : RawPeer) (ps : List RawPeer) (info : AddrInfo)
      → addr_info p.peer_address ≡ ok info
      → with_peers addr_info peers (p ∷ ps) ≡ with_peers addr_info (peers ++ info ∷ []) ps
  unfolding with_peers
  with_peers-next peers p ps info h = rw (h, with_peers) refl

  with_peers-read :
      (peers new : List AddrInfo) (ps : List RawPeer)
      → read_all ps ≡ map ok new
      → with_peers addr_info peers ps ≡ ok (peers ++ new)
  unfolding with_peers
  with_peers-read peers [] [] h = ap ok (sym (append-nil peers))
  with_peers-read peers (i ∷ new) [] h = absurd (cc)
  with_peers-read peers [] (p ∷ ps) h = absurd (cc)
  with_peers-read peers (i ∷ new) (p ∷ ps) h =
      with_peers-next peers p ps i (cc)
      ∙ with_peers-read (peers ++ i ∷ []) new ps (cc)
      ∙ ap ok (append_assoc peers (i ∷ []) new)

  with_peers-end :
      (peers infos : List AddrInfo) → with_peers addr_info peers [] ≡ ok infos → peers ≡ infos
  unfolding with_peers
  with_peers-end peers infos h = cc

  with_peers-stops :
      (peers infos : List AddrInfo) (p : RawPeer) (ps : List RawPeer) (e : Bytes)
      → addr_info p.peer_address ≡ err e
      → ¬ (with_peers addr_info peers (p ∷ ps) ≡ ok infos)
  unfolding with_peers
  with_peers-stops peers infos p ps e refused h = absurd (ground arith)

  with_peers-ok :
      (peers infos : List AddrInfo) (ps : List RawPeer)
      → with_peers addr_info peers ps ≡ ok infos
      → (new : List AddrInfo) × (infos ≡ peers ++ new) × (read_all ps ≡ map ok new)
  with_peers-ok peers infos [] h =
      ([], sym (with_peers-end peers infos h) ∙ sym (append-nil peers), refl)
  with_peers-ok peers infos (p ∷ ps) h = elim (Result-cases (addr_info p.peer_address)) [
    | inl (info, e) ↦
        let (new, whole, rest) =
          with_peers-ok (peers ++ info ∷ []) infos ps
            (sym (with_peers-next peers p ps info e) ∙ h) in
        (info ∷ new, whole ∙ append_assoc peers (info ∷ []) new, rw (e, rest) refl)
    | inr (e, refused) ↦ absurd (with_peers-stops peers infos p ps e refused h)
  ]

  -- A topology is taken exactly if the address of each peer is read, in the order of the peers, and the
  -- threshold is read as a positive number.
  pub process_raw_topology-accepts :
      (raw : RawTopology) (nt : NetworkTopology)
      → (process_raw_topology addr_info raw ≡ ok nt) ↔ (
          (read_all raw.peers ≡ map ok nt.peers)
          × (parse_int 64 raw.threshold ≡ some (pos nt.threshold))
          × (0 < nt.threshold))
  unfolding process_raw_topology
  process_raw_topology-accepts raw nt = (
    λ h.
        let (peers, text, positive) = from_peers (with_peers addr_info [] raw.peers) _ nt h in
        let (new, whole, read) = with_peers-ok [] nt.peers raw.peers peers in
        (read ∙ ap (map ok) (sym whole), text, positive),
    λ (read, text, positive).
        ap (λ r. r >>= λ peers. topology_of peers (parse_int 64 raw.threshold))
          (with_peers-read [] nt.peers raw.peers read)
        ∙ (topology_of-accepts nt.peers _ nt).1 (refl, text, positive),
  )

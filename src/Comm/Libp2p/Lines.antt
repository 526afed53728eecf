-- ===== src/Comm/Libp2p/Lines.antt =====
-- Lines that were written, and streams that are kept.
use binance_tss_demo.Prelude.{
  ℕ, ◌≡◌, Bytes, [], ◌∷◌, ◌++◌, some, ok, bytes_Comparable, inl, inr, ◌⊎◌, take,
}
use binance_tss_demo.Peers.{PeerId}
use binance_tss_demo.Comm.Streams.{StreamManager, stream}
use binance_tss_demo.Comm.Libp2p.{Network, Written}

-- A stream that is there stays.
abbrev pub Kept : StreamManager → StreamManager → Type 0
Kept sm sm' =
    (session_id : Bytes) (p : PeerId) (s : ℕ)
    → stream sm session_id p ≡ some s
    → stream sm' session_id p ≡ some s

abbrev pub IsWritten : ℕ → Bytes → Written → Type 0
IsWritten s line [] = ⊥
IsWritten s line (w ∷ ws) = (w ≡ (s, line)) ⊎ IsWritten s line ws

pub IsWritten-append :
    (s : ℕ) (line : Bytes) (xs ys : Written)
    → IsWritten s line (xs ++ ys)
    → IsWritten s line xs ⊎ IsWritten s line ys
IsWritten-append s line [] ys h = inr h
IsWritten-append s line (x ∷ xs) ys (inl e) = inl (inl e)
IsWritten-append s line (x ∷ xs) ys (inr h) = elim (IsWritten-append s line xs ys h) [
  | inl a ↦ inl (inr a)
  | inr b ↦ inr b
]

pub written_left :
    (s : ℕ) (line : Bytes) (xs ys : Written) → IsWritten s line xs → IsWritten s line (xs ++ ys)
written_left s line [] ys h = absurd h
written_left s line (x ∷ xs) ys (inl e) = inl e
written_left s line (x ∷ xs) ys (inr h) = inr (written_left s line xs ys h)

pub written_right :
    (s : ℕ) (line : Bytes) (xs ys : Written) → IsWritten s line ys → IsWritten s line (xs ++ ys)
written_right s line [] ys h = h
written_right s line (x ∷ xs) ys h = inr (written_right s line xs ys h)

-- The line, or its first bytes.
abbrev pub IsStart : Bytes → Bytes → Type 0
IsStart line whole = (line ≡ whole) ⊎ ((n : ℕ) × (line ≡ take n whole))

-- A stream of a peer: one that the session had, or one that was opened.
abbrev pub IsFor : Network → StreamManager → Bytes → PeerId → ℕ → Type 0
IsFor net sm session_id p s =
    (stream sm session_id p ≡ some s) ⊎ ((k : ℕ) × (net.new_stream k p ≡ ok s))

-- ===== src/Comm/Libp2p/Ends.antt =====
-- The loop over the messages of a stream comes to its end.
use binance_tss_demo.Prelude.{
  ℕ, zero, suc, ◌<◌, ◌≡◌, refl, true, Bytes, List, Option, none, some, Option-cases, ok, err,
  length, arith, ap, sym, ◌∙◌, Result-cases, inl, inr,
}
use binance_tss_demo.Peers.{PeerId}
use binance_tss_demo.Message.{WrappedMessage}
use binance_tss_demo.Comm.Framing.{read_stream}
use binance_tss_demo.Comm.Framing.Laws.{read_stream-shorter}
use binance_tss_demo.Comm.Subscriptions.{Subscribers}
use binance_tss_demo.Comm.Libp2p.{MessageJson, Send, deliver, next_round, process_messages}

-- A round that does not return takes bytes of the stream.
next_round-shorter :
    (json : MessageJson) (subscribers : Subscribers) (remote : PeerId) (bytes : Bytes)
    (sends : List Send) (left : Bytes)
    → next_round json subscribers remote bytes ≡ some (sends, left)
    → length left < length bytes
unfolding next_round
next_round-shorter json subscribers remote bytes sends left h =
    elim (Result-cases (read_stream bytes)) [
      | inr (e, none_left) ↦ absurd (cc (no_line e none_left, h))
      | inl ((msg, after), read) ↦ elim (Result-cases (json.unmarshal msg)) [
        | inr (e, bad) ↦ absurd (cc (no_text msg after e read bad, h))
        | inl (m, good) ↦
            let same = some_same (sym (read_on msg after m read good) ∙ h) in
            omega (
              arith,
              read_stream-shorter bytes msg after read,
              ap (λ (x : List Send × Bytes). length x.1) same,
            )
      ]
    ]
  where
    some_same :
        {a b : List Send × Bytes} → ◌≡◌ {A = Option (List Send × Bytes)} (some a) (some b) → a ≡ b
    some_same e = cc

    read_on :
        (msg after : Bytes) (m : WrappedMessage)
        → read_stream bytes ≡ ok (msg, after)
        → json.unmarshal msg ≡ ok m
        → next_round json subscribers remote bytes ≡ some (deliver subscribers remote m, after)
    read_on msg after m r u = rw (r, u, next_round) refl

    no_line :
        (e : Bytes) → read_stream bytes ≡ err e → next_round json subscribers remote bytes ≡ none
    no_line e r = rw (r, next_round) refl

    no_text :
        (msg after e : Bytes)
        → read_stream bytes ≡ ok (msg, after)
        → json.unmarshal msg ≡ err e
        → next_round json subscribers remote bytes ≡ none
    no_text msg after e r u = rw (r, u, next_round) refl

-- Whatever the bytes of the stream are, once it is at its end the loop has returned, after at most one
-- round for each byte and one more.
pub process_messages-ends :
    (json : MessageJson) (subscribers : ℕ → Subscribers) (remote : PeerId) (n fuel : ℕ)
    (bytes : Bytes)
    → length bytes < fuel
    → (process_messages json subscribers remote n fuel bytes).1 ≡ true
unfolding process_messages
process_messages-ends json subscribers remote n zero bytes h = absurd (omega arith)
process_messages-ends json subscribers remote n (suc fuel) bytes h =
    elim (Option-cases (next_round json (subscribers n) remote bytes)) [
      | inl e ↦ rw (e, process_messages) refl
      | inr ((sends, left), e) ↦
          rw (e, process_messages)
            (process_messages-ends json subscribers remote (suc n) fuel left
              (omega (arith, next_round-shorter json (subscribers n) remote bytes sends left e)))
    ]

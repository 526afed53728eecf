-- ===== src/Comm/Libp2p/Receiving.antt =====
-- What reaches the subscribers of what peers sent.
use mathlib.Core.Path.{subst}
use mathlib.Core.List.{append_assoc, append-nil, perm_middle}
use mathlib.Core.List.Perm
use binance_tss_demo.Prelude.{
  ◌+◌, Option, Perm, length-append, ℕ, suc, ◌≡◌, refl, ap, ◌∙◌, sym, false, Bytes, List, [], ◌∷◌,
  ◌++◌, ok, arith, contains, nat_Comparable, length, none, some,
}
use binance_tss_demo.Peers.{PeerId}
use binance_tss_demo.Message.{WrappedMessage}
use binance_tss_demo.Comm.Framing.{read_stream, write_stream}
use binance_tss_demo.Comm.Framing.Laws.{read_stream-write_stream}
use binance_tss_demo.Comm.Subscriptions.{Subscribers}
use binance_tss_demo.Comm.Libp2p.{
  MessageJson, Send, Reader, Step, Steps, reads, returns, sends_one, stays, then_step, deliver,
  next_round, new_reader,
}

-- JSON text has no newline, and what is marshalled is read back but for the sender, which is left out.
pub record IsMessageJson (json : MessageJson) : Type 0 where
  pub one_line :
      (m : WrappedMessage) (bytes : Bytes) → json.marshal m ≡ ok bytes → contains bytes 10 ≡ false
  pub round_trip :
      (m : WrappedMessage) (bytes : Bytes)
      → json.marshal m ≡ ok bytes
      → json.unmarshal bytes ≡ ok (record m { from = [] })

-- A stream of marshalled messages.
pub data Carries (json : MessageJson) : List WrappedMessage → Bytes → Type 0 where
  nothing : Carries json [] []
  line :
      {m : WrappedMessage} {ms : List WrappedMessage} {bytes left : Bytes}
      → json.marshal m ≡ ok bytes
      → Carries json ms left
      → Carries json (m ∷ ms) (write_stream bytes ++ left)

-- The deliveries of messages, each at its time.
abbrev pub deliveries :
    (ℕ → Subscribers) → PeerId → ℕ → List WrappedMessage → List (ℕ × WrappedMessage)
deliveries subscribers remote n [] = []
deliveries subscribers remote n (m ∷ ms) =
    deliver (subscribers n) remote m ++ deliveries subscribers remote (suc n) ms

read_round :
    (json : MessageJson) (subscribers : Subscribers) (remote : PeerId) (m : WrappedMessage)
    (bytes left : Bytes)
    → IsMessageJson json
    → json.marshal m ≡ ok bytes
    → next_round json subscribers remote (write_stream bytes ++ left)
      ≡ some (deliver subscribers remote m, left)
unfolding next_round deliver
read_round json subscribers remote m bytes left is e =
    rw
      (
        read_stream-write_stream bytes left (is.one_line m bytes e),
        is.round_trip m bytes e,
        next_round,
      )
      refl

some_same : {A : Type 0} {a b : A} → ◌≡◌ {A = Option A} (some a) (some b) → a ≡ b
some_same e = cc

no_round :
    (json : MessageJson) (subscribers : Subscribers) (remote : PeerId)
    → next_round json subscribers remote [] ≡ none
unfolding next_round read_stream
no_round json subscribers remote = refl

-- What a round of a stream that carries messages does.
round_reads :
    (json : MessageJson) (subscribers : Subscribers) (remote : PeerId) {ms : List WrappedMessage}
    {bytes : Bytes} (sends : List Send) (after : Bytes)
    → IsMessageJson json
    → Carries json ms bytes
    → next_round json subscribers remote bytes ≡ some (sends, after)
    → (m : WrappedMessage) × (rest : List WrappedMessage) × (ms ≡ m ∷ rest)
      × (sends ≡ deliver subscribers remote m)
      × Carries json rest after
round_reads json subscribers remote sends after is Carries.nothing e =
    absurd (cc (no_round json subscribers remote, e))
round_reads json subscribers remote sends after is
      (Carries.line {m} {ms} {bytes} {left} marshalled carries) e =
    let same =
      some_same (sym (read_round json subscribers remote m bytes left is marshalled) ∙ e) in
    (m, ms, refl, sym (ap (λ x. x.0) same), subst (Carries json ms) (ap (λ x. x.1) same) carries)

round_returns :
    (json : MessageJson) (subscribers : Subscribers) (remote : PeerId) {ms : List WrappedMessage}
    {bytes : Bytes}
    → IsMessageJson json
    → Carries json ms bytes
    → next_round json subscribers remote bytes ≡ none
    → ms ≡ []
round_returns json subscribers remote is Carries.nothing e = refl
round_returns json subscribers remote is (Carries.line {m} {ms} {bytes} {left} marshalled carries)
      e =
    absurd (cc (read_round json subscribers remote m bytes left is marshalled, e))

deliveries-snoc :
    (subscribers : ℕ → Subscribers) (remote : PeerId) (n : ℕ) (ms : List WrappedMessage)
    (m : WrappedMessage)
    → deliveries subscribers remote n (ms ++ m ∷ [])
      ≡ deliveries subscribers remote n ms ++ deliver (subscribers (n + length ms)) remote m
deliveries-snoc subscribers remote n [] m =
    append-nil _ ∙ ap (λ k. deliver (subscribers k) remote m) (omega arith)
deliveries-snoc subscribers remote n (x ∷ ms) m =
    ap (λ ds. deliver (subscribers n) remote x ++ ds)
      (deliveries-snoc subscribers remote (suc n) ms m
        ∙ ap (λ k. deliveries subscribers remote (suc n) ms ++ deliver (subscribers k) remote m)
            (omega arith))
    ∙ sym (append_assoc (deliver (subscribers n) remote x) _ _)

same_perm : {A : Type 0} {xs ys : List A} → xs ≡ ys → Perm xs ys
same_perm {xs} e = subst (Perm xs) e (Perm.refl xs)

sent_one :
    (sent before after : List Send) (x : Send) (pending : List Send)
    → pending ≡ before ++ x ∷ after
    → Perm ((sent ++ x ∷ []) ++ (before ++ after)) (sent ++ pending)
sent_one sent before after x pending e =
    subst (λ ps. Perm ((sent ++ x ∷ []) ++ (before ++ after)) (sent ++ ps)) (sym e)
      (subst (λ ps. Perm ps (sent ++ (before ++ x ∷ after)))
        (sym (append_assoc sent (x ∷ []) (before ++ after)))
        (Perm.append_left sent (Perm.symm (perm_middle before after))))

module _ (json : MessageJson) (subscribers : ℕ → Subscribers) (remote : PeerId) (n : ℕ)
    (ms : List WrappedMessage) where
  -- The messages of the rounds so far, and those that are left on the stream; what
  -- the goroutines have sent or still hold is the deliveries of the first, in some order; all messages had their round if the loop has returned.
  pub record Arrived (r : Reader) : Type 0 where
    pub read : List WrappedMessage
    pub rest : List WrappedMessage
    pub all : ms ≡ read ++ rest
    pub now : r.n ≡ n + length read
    pub carries : Carries json rest r.left
    pub arrived : Perm (r.sent ++ r.pending) (deliveries subscribers remote n read)
    pub returned : r.running ≡ false → rest ≡ []

  Step-Arrived :
      {r r' : Reader}
      → IsMessageJson json
      → Arrived r
      → Step json subscribers remote r r'
      → Arrived r'
  Step-Arrived is a (reads {r} {sends} {left} runs e) =
      let (m, rest, first, started, carries) =
        round_reads json (subscribers r.n) remote sends left is a.carries e in
      record {
        read = a.read ++ m ∷ [];
        rest = rest;
        all = a.all ∙ ap (λ x. a.read ++ x) first ∙ sym (append_assoc a.read (m ∷ []) rest);
        now = omega (arith, a.now, length-append a.read (m ∷ []));
        carries = carries;
        arrived =
            subst (λ xs. Perm xs (deliveries subscribers remote n (a.read ++ m ∷ [])))
              (append_assoc r.sent r.pending sends)
              (subst (Perm ((r.sent ++ r.pending) ++ sends))
                (sym (deliveries-snoc subscribers remote n a.read m))
                (Perm.append a.arrived
                  (same_perm (started ∙ ap (λ k. deliver (subscribers k) remote m) a.now))));
        returned = λ e. absurd (cc);
      }
  Step-Arrived is a (returns {r} runs e) = record {
    read = a.read;
    rest = a.rest;
    all = a.all;
    now = a.now;
    carries = a.carries;
    arrived = a.arrived;
    returned = λ no. round_returns json (subscribers r.n) remote is a.carries e;
  }
  Step-Arrived is a (sends_one {r} before after x e) = record {
    read = a.read;
    rest = a.rest;
    all = a.all;
    now = a.now;
    carries = a.carries;
    arrived = Perm.trans (sent_one r.sent before after x r.pending e) a.arrived;
    returned = a.returned;
  }

  pub Steps-Arrived :
      (bytes : Bytes) {r : Reader}
      → IsMessageJson json
      → Carries json ms bytes
      → Steps json subscribers remote (new_reader n bytes) r
      → Arrived r
  unfolding new_reader
  Steps-Arrived bytes is carries stays = record {
    read = [];
    rest = ms;
    all = refl;
    now = omega arith;
    carries = carries;
    arrived = Perm.refl [];
    returned = λ e. absurd (cc);
  }
  Steps-Arrived bytes is carries (then_step steps step) =
      Step-Arrived is (Steps-Arrived bytes is carries steps) step

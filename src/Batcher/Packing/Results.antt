-- ===== src/Batcher/Packing/Results.antt =====
-- What sendBatch of cmd/claw/output_batcher.go promises to the app.
use clianywhere_daemon.Prelude.{
  ℕ, ◌+◌, ◌*◌, ◌≤◌, ◌<◌, ◌^◌, true, false, Option, none, some, List, [], ◌∷◌, ◌≡◌, refl, sym, ap,
  ◌∙◌, append-nil, subst, arith, String, leb, leb→le, length, All, Bool-cases, inl, inr,
}
use clianywhere_daemon.Protocol.{Bytes, Message}
use clianywhere_daemon.Batcher.{
  Open, OutEntry, accepts, emit, is_empty, output_message, output_marshal_free_floor, output_budget,
  output_fits, within, send_batch, send_batch?, nothing_open,
}
use clianywhere_daemon.Batcher.Packing.Sizes.{is_empty-nil}
use clianywhere_daemon.Batcher.Packing.{
  payloads, Covers, IsSendable, IsPacked, IsCovered, Advances, Advances-trans, emit-Advances,
}
use clianywhere_daemon.Batcher.Packing.Segment.{
  Follows, last_seq, entry_bytes, pack_entries-PacksAll,
}

abbrev SizeOf : Option ℕ → ℕ → Type 0
SizeOf r bound = (len : ℕ) × (r ≡ some len) × (len ≤ bound)

module _ (marshal_len : Message → Option ℕ) (sid : String) where
  record Sends (c : ℕ) (es : List OutEntry) (r : Option (List Message)) : Type 0 where
    messages : List Message
    returns : r ≡ some messages
    whole : payloads messages ≡ entry_bytes es
    sendable : All (IsSendable marshal_len sid) messages
    covers : Covers c messages (last_seq c es)

  emit_nothing : (o : Open) → is_empty (emit marshal_len sid o).payload ≡ true
  unfolding emit
  emit_nothing o = elim (Bool-cases (is_empty o.payload)) [
    | inl h ↦ rw (h, emit) h
    | inr h ↦ rw (h, emit)
  ]

  nothing_open-IsPacked : IsPacked marshal_len sid nothing_open
  nothing_open-IsPacked = record { closed = tt; opened = λ h. cc }

  nothing_open-IsCovered : (c : ℕ) → IsCovered c nothing_open c
  nothing_open-IsCovered c = record {
    end = c;
    closed = refl;
    count = omega arith;
    last = λ h. cc;
    none_open = λ _. refl;
  }

  closes :
      {c : ℕ} {es : List OutEntry} (o : Open)
      → is_empty o.payload ≡ true
      → Advances marshal_len sid c nothing_open c (entry_bytes es) o (last_seq c es)
      → Sends c es (some o.sent)
  closes {c} {es} o h a = record {
    messages = o.sent;
    returns = refl;
    whole = sym (append-nil (payloads o.sent)) ∙ rw (is_empty-nil o.payload h) at a.bytes;
    sendable = (a.packed nothing_open-IsPacked).closed;
    covers =
        let k = a.covered (nothing_open-IsCovered c) in
        subst (Covers c o.sent) (omega (arith, k.count, k.none_open h)) k.closed;
  }

  send_batch?-Sends :
      (c : ℕ) (es : List OutEntry) → Follows c es → Sends c es (send_batch? marshal_len sid es)
  unfolding send_batch?
  send_batch?-Sends c es h =
      let k = pack_entries-PacksAll marshal_len sid c c es nothing_open h in
      rw (k.returns, send_batch?)
        (closes (emit marshal_len sid k.result) (emit_nothing k.result) (
          rw append-nil at (
            Advances-trans marshal_len sid k.advances
              (emit-Advances marshal_len sid c (last_seq c es) k.result))))

  send_batch-Sends :
      (c : ℕ) (es : List OutEntry) (s : Sends c es (send_batch? marshal_len sid es))
      → send_batch marshal_len sid es ≡ s.messages
  unfolding send_batch
  send_batch-Sends c es s = rw (s.returns, send_batch)

  -- For a segment of consecutive non-empty writes after write `c`, sendBatch ends, and the data of
  -- its messages is the data of the writes, byte for byte and in order. Each message carries the
  -- number of its last write, and covers the writes right after those of the message before it:
  -- the app's watermark goes from `c` to the last write of the segment.
  pub send_batch_lem :
      (c : ℕ) (es : List OutEntry)
      → Follows c es
      → (send_batch? marshal_len sid es ≡ some (send_batch marshal_len sid es))
        × (payloads (send_batch marshal_len sid es) ≡ entry_bytes es)
        × Covers c (send_batch marshal_len sid es) (last_seq c es)
  send_batch_lem c es h =
      let s = send_batch?-Sends c es h in
      rw (send_batch-Sends c es s) (s.returns, s.whole, s.covers)

  pub send_batch-IsSendable :
      (c : ℕ) (es : List OutEntry)
      → Follows c es
      → All (IsSendable marshal_len sid) (send_batch marshal_len sid es)
  send_batch-IsSendable c es h =
      let s = send_batch?-Sends c es h in rw (send_batch-Sends c es s) s.sendable

  -- The numbers in a message are those of writes up to the last.
  abbrev pub Within : ℕ → Message → Type 0
  Within w m = (m.outputs ≤ w) × (m.seq ≤ w)

  Covers-le : (w v : ℕ) (ms : List Message) → Covers w ms v → w ≤ v
  Covers-le w v [] h = omega arith
  Covers-le w v (m ∷ ms) h = omega (arith, h.0, Covers-le m.seq v ms h.1)

  pub Covers-Within : (w v : ℕ) (ms : List Message) → Covers w ms v → All (Within v) ms
  Covers-Within w v [] h = tt
  Covers-Within w v (m ∷ ms) h = (
    (omega (arith, h.0, Covers-le m.seq v ms h.1), Covers-le m.seq v ms h.1),
    Covers-Within m.seq v ms h.1,
  )

  -- encoding/json renders a byte of the data in at most six bytes, and an envelope with 64-bit
  -- numbers and this session's id in at most 512.
  abbrev pub JsonBound : Type 0
  JsonBound =
      (d : Bytes) (n seq : ℕ)
      → n < 2 ^ 64
      → seq < 2 ^ 64
      → SizeOf (marshal_len (output_message sid d n seq)) (6 * length d + 512)

  -- What the secure channel accepts.
  abbrev pub FitsBudget : Message → Type 0
  FitsBudget m =
      (is_empty m.payload ≡ false)
      × (m.kind ≡ "output")
      × (m.session_id ≡ sid)
      × SizeOf (marshal_len m) output_budget

  within-SizeOf : (b : ℕ) (r : Option ℕ) → within b r ≡ true → SizeOf r b
  within-SizeOf b none h = cc
  within-SizeOf b (some len) h = (len, refl, leb→le len b h)

  accepts-SizeOf :
      JsonBound
      → (d : Bytes) (n seq : ℕ) → n < 2 ^ 64
      → seq < 2 ^ 64
      → accepts marshal_len sid d n seq ≡ true
      → SizeOf (marshal_len (output_message sid d n seq)) output_budget
  unfolding accepts output_fits
  accepts-SizeOf json d n seq hn hs h =
      elim (Bool-cases (leb (length d) output_marshal_free_floor)) [
        | inl small ↦
            let (len, e, le) = json d n seq hn hs in
            (len, e, omega (arith, leb→le (length d) output_marshal_free_floor small))
        | inr large ↦
            within-SizeOf output_budget (marshal_len (output_message sid d n seq)) (rw large at h)
      ]

  sendable-FitsBudget :
      JsonBound
      → (v : ℕ) (m : Message) → v < 2 ^ 64
      → IsSendable marshal_len sid m
      → Within v m
      → FitsBudget m
  sendable-FitsBudget json v m hv s w = (
    s.1,
    ap (λ (x : Message). x.kind) s.0,
    ap (λ (x : Message). x.session_id) s.0,
    subst (λ x. SizeOf (marshal_len x) output_budget) (sym s.0)
        (accepts-SizeOf json m.payload m.outputs m.seq (omega arith) (omega arith) s.2),
  )

  All-FitsBudget :
      JsonBound
      → (v : ℕ) (ms : List Message) → v < 2 ^ 64
      → All (IsSendable marshal_len sid) ms
      → All (Within v) ms
      → All FitsBudget ms
  All-FitsBudget json v [] hv s w = tt
  All-FitsBudget json v (m ∷ ms) hv s w =
      (sendable-FitsBudget json v m hv s.0 w.0, All-FitsBudget json v ms hv s.1 w.1)

  -- If encoding/json keeps to its bound, each message that sendBatch sends for a segment is a
  -- non-empty output message of the session whose JSON has at most 21952 bytes, so it is below
  -- SecureMaxTextPayload and WrapJSON does not refuse it for its size.
  pub send_batch-FitsBudget :
      (c : ℕ) (es : List OutEntry)
      → JsonBound
      → Follows c es
      → last_seq c es < 2 ^ 64
      → All FitsBudget (send_batch marshal_len sid es)
  send_batch-FitsBudget c es json h small =
      let s = send_batch?-Sends c es h in
      rw (send_batch-Sends c es s) (
        All-FitsBudget json (last_seq c es) s.messages small s.sendable
          (Covers-Within c (last_seq c es) s.messages s.covers))

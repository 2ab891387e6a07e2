-- ===== src/Batcher/Buffers/Adding.antt =====
-- Add and FlushSession of cmd/claw/output_batcher.go.
use clianywhere_daemon.Prelude.{
  string_key, ℕ, ◌^◌, ◌<◌, Bool, true, false, Option, none, some, List, [], ◌++◌, ◌≡◌, refl, sym,
  ap, ap₂, ◌∙◌, inl, inr, String, if◌then◌else◌, Bool-cases, Option-cases, beq_true, beq_refl,
  arith, ◌==◌, append-nil,
}
use clianywhere_daemon.Prelude.Assoc.{lookup, insert, delete, lookup-insert, lookup-delete}
use clianywhere_daemon.Protocol.{Bytes, Message}
use clianywhere_daemon.Batcher.{is_empty, send_batch}
use clianywhere_daemon.Batcher.Packing.Sizes.{is_empty-nil}
use clianywhere_daemon.Batcher.Packing.Segment.{entry_bytes}
use clianywhere_daemon.Batcher.Buffers.{
  OutBuf, Bufs, is_nil, flush_session, add, append_entry, fresh_buf, or_fresh, has_gap, seq_after,
}
use clianywhere_daemon.Batcher.Buffers.Stream.{
  queued-absent, IsBuf, IsBufs, queued, buf_bytes, sent_to, sent_to-send_batch,
}
use clianywhere_daemon.Batcher.Buffers.Cuts.{entry_bytes-append}
use clianywhere_daemon.Batcher.Buffers.Shapes.{
  delete-IsBufs, insert-IsBufs, lookup-IsBuf, fresh-IsBuf, append-IsBuf,
}

no_bytes : (b : Bool) (q : Bytes) → q ≡ q ++ (if b then [] else [])
no_bytes true q = sym (append-nil q)
no_bytes false q = sym (append-nil q)

module _ (marshal_len : Message → Option ℕ) where
  -- An operation that keeps the buffers well formed and, of what was queued for a session and the
  -- bytes `p` that it adds, sends a first part and leaves the rest queued.
  pub record IsFifo (sid : String) (p : Bytes) (bufs : Bufs) (r : Bufs × List Message)
      : Type 0 where
    pub formed : IsBufs r.0
    pub whole : sent_to sid r.1 ++ queued sid r.0 ≡ queued sid bufs ++ p

  queued-insert :
      (sid id : String) (b : OutBuf) (bufs : Bufs)
      → queued sid (insert id b bufs)
        ≡ (if id == sid then entry_bytes b.entries else queued sid bufs)
  queued-insert sid id b bufs = rw (lookup-insert id sid b bufs) (ground arith)

  flush_found :
      (sid id : String) (bufs : Bufs) (buf : OutBuf)
      → IsBufs bufs
      → IsBuf buf
      → lookup id bufs ≡ some buf
      → IsFifo sid [] bufs (delete id bufs, send_batch marshal_len id buf.entries)
  flush_found sid id bufs buf v b e = record {
    formed = delete-IsBufs id bufs v;
    whole =
        rw
          (
            sent_to-send_batch marshal_len sid id b.start buf.entries b.segment,
            lookup-delete id sid bufs,
          )
          (elim (Bool-cases (id == sid)) [
            | inl h ↦
                rw h
                  (rw (append-nil, append-nil) (sym (ap buf_bytes (rw (beq_true id sid h) at e))))
            | inr h ↦ rw h (sym (append-nil (queued sid bufs)))
          ]);
  }

  pub flush_session-IsFifo :
      (sid id : String) (bufs : Bufs)
      → IsBufs bufs
      → IsFifo sid [] bufs (flush_session marshal_len id bufs)
  unfolding flush_session
  flush_session-IsFifo sid id bufs v = elim (Option-cases (lookup id bufs)) [
    | inl e ↦
        rw (e, flush_session)
          (record { formed = v; whole = unfold sent_to in sym (append-nil (queued sid bufs)) })
    | inr (buf, e) ↦
        let b = lookup-IsBuf id bufs buf v e in
        rw (e, flush_session) (rw b.filled (flush_found sid id bufs buf v b e))
  ]

  pub lookup-flush_session :
      (id : String) (bufs : Bufs)
      → IsBufs bufs
      → lookup id (flush_session marshal_len id bufs).0 ≡ none
  unfolding flush_session
  lookup-flush_session id bufs v = elim (Option-cases (lookup id bufs)) [
    | inl e ↦ rw (e, flush_session) e
    | inr (buf, e) ↦
        rw (e, flush_session)
          (rw (lookup-IsBuf id bufs buf v e).filled
            (rw (lookup-delete id id bufs) (rw (beq_refl id) refl)))
  ]

  module _ (sid id : String) (d : Bytes) (seq now : ℕ) (bufs : Bufs) (ne : is_empty d ≡ false)
      (pos : 0 < seq) (small : seq < 2 ^ 64) (v : IsBufs bufs) where
    add_after_flush : IsFifo sid (if id == sid then d else []) bufs (
      insert id (append_entry (fresh_buf now) d seq) (flush_session marshal_len id bufs).0,
      (flush_session marshal_len id bufs).1,
    )
    add_after_flush = record {
      formed = insert-IsBufs id _ _ (fresh-IsBuf d seq ne pos small now) f.formed;
      whole =
          rw
            (queued-insert sid id (append_entry (fresh_buf now) d seq)
              (flush_session marshal_len id bufs).0)
            (elim (Bool-cases (id == sid)) [
              | inl h ↦ rw h (
                  ap₂ ◌++◌
                    (sym (append-nil _)
                      ∙ ap (◌++◌ (sent_to sid (flush_session marshal_len id bufs).1))
                          (sym (queued-absent sid id _ (lookup-flush_session id bufs v) h))
                      ∙ f.whole
                      ∙ append-nil (queued sid bufs))
                    (append-nil d))
              | inr h ↦ rw h f.whole
            ]);
    }
      where
        f : IsFifo sid [] bufs (flush_session marshal_len id bufs)
        f = flush_session-IsFifo sid id bufs v

    add_to_open :
        has_gap (lookup id bufs) seq ≡ false
        → IsFifo sid
            (if id == sid then d else [])
            bufs
            (insert id (append_entry (or_fresh (lookup id bufs) now) d seq) bufs, [])
    add_to_open g = elim (Option-cases (lookup id bufs)) [
      | inl e ↦ rw e (record {
        formed = insert-IsBufs id _ bufs (fresh-IsBuf d seq ne pos small now) v;
        whole =
            rw (queued-insert sid id (append_entry (fresh_buf now) d seq) bufs)
              (elim (Bool-cases (id == sid)) [
                | inl h ↦ rw h (
                    unfold sent_to in
                    append-nil d ∙ ap (λ (x : Bytes). x ++ d) (sym (queued-absent sid id bufs e h)))
                | inr h ↦ rw h (unfold sent_to in sym (append-nil (queued sid bufs)))
              ]);
      })
      | inr (buf, e) ↦
          let b = lookup-IsBuf id bufs buf v e in
          rw e (record {
            formed =
                insert-IsBufs id _ bufs
                  (append-IsBuf d seq ne pos small buf b (gap-none buf b.filled (rw e at g))) v;
            whole =
                rw (queued-insert sid id (append_entry buf d seq) bufs)
                  (elim (Bool-cases (id == sid)) [
                    | inl h ↦ rw h (
                        unfold sent_to in
                        entry_bytes-append buf.entries _
                        ∙ ap₂ ◌++◌ (sym (ap buf_bytes (rw (beq_true id sid h) at e)))
                            (append-nil d))
                    | inr h ↦ rw h (unfold sent_to in sym (append-nil (queued sid bufs)))
                  ]);
          })
    ]
      where
        gap-none :
            (buf : OutBuf)
            → is_nil buf.entries ≡ false
            → has_gap (some buf) seq ≡ false
            → seq ≡ seq_after buf.last_seq
        gap-none buf f h = ground arith

  pub add-IsFifo :
      (sid id : String) (d : Bytes) (seq now : ℕ) (bufs : Bufs)
      → 0 < seq
      → seq < 2 ^ 64
      → IsBufs bufs
      → IsFifo sid (if id == sid then d else []) bufs (add marshal_len id d seq now bufs)
  unfolding add
  add-IsFifo sid id d seq now bufs pos small v = elim (Bool-cases (is_empty d)) [
    | inl e ↦ rw e (record {
      formed = v;
      whole = unfold sent_to in rw (is_empty-nil d e) (no_bytes (id == sid) (queued sid bufs));
    })
    | inr ne ↦ rw ne (elim (Bool-cases (has_gap (lookup id bufs) seq)) [
      | inl g ↦ rw g (add_after_flush sid id d seq now bufs ne pos small v)
      | inr g ↦ rw g (add_to_open sid id d seq now bufs ne pos small v g)
    ])
  ]

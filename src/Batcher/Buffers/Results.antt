-- ===== src/Batcher/Buffers/Results.antt =====
-- What the batcher of cmd/claw/output_batcher.go promises over any history of its operations.
use clianywhere_daemon.Prelude.{
  string_key, ℕ, ◌^◌, ◌<◌, Bool, Option, List, [], ◌∷◌, ◌++◌, sym, ap, ◌∙◌, String, if◌then◌else◌,
  All, ◌==◌, append-nil, append_assoc,
}
use clianywhere_daemon.Protocol.{Bytes, Message}
use clianywhere_daemon.Batcher.Buffers.{
  OutBuf, Bufs, tick, flush_all, flush_session, seal_at, add, run_sweep, Cut,
}
use clianywhere_daemon.Batcher.Buffers.Stream.{
  IsBuf, IsBufs, IsCut, queued, sent_to, sent_to-append, sweep-IsBufs, sweep-whole,
}
use clianywhere_daemon.Batcher.Buffers.Cuts.{cut_due-IsCut, cut_all-IsCut, cut_seal-IsCut}
use clianywhere_daemon.Batcher.Buffers.Adding.{IsFifo, flush_session-IsFifo, add-IsFifo}

-- A call of the batcher, with the values that it reads from its dependencies.
pub data Call : Type 0 where
  ticks : Bool → ℕ → Call
  adds : String → Bytes → ℕ → ℕ → Call
  flushes : String → Call
  flushes_all : Call
  seals : ℕ → Call

-- A write counter starts at 1 and is a 64-bit number.
abbrev pub IsCall : Call → Type 0
IsCall (ticks interactive now) = Unit
IsCall (adds sid d seq now) = (0 < seq) × (seq < 2 ^ 64)
IsCall (flushes sid) = Unit
IsCall flushes_all = Unit
IsCall (seals h) = Unit

-- The bytes that a call adds for a session.
abbrev pub added : String → Call → Bytes
added sid (ticks interactive now) = []
added sid (adds id d seq now) = if id == sid then d else []
added sid (flushes id) = []
added sid flushes_all = []
added sid (seals h) = []

abbrev pub all_added : String → List Call → Bytes
all_added sid [] = []
all_added sid (c ∷ cs) = added sid c ++ all_added sid cs

module _ (marshal_len : Message → Option ℕ) where
  pub call : Bufs → Call → Bufs × List Message
  call bufs (ticks interactive now) = tick marshal_len interactive now bufs
  call bufs (adds sid d seq now) = add marshal_len sid d seq now bufs
  call bufs (flushes sid) = flush_session marshal_len sid bufs
  call bufs flushes_all = flush_all marshal_len bufs
  call bufs (seals h) = seal_at marshal_len h bufs

  pub run : Bufs → List Call → Bufs × List Message
  run bufs [] = (bufs, [])
  run bufs (c ∷ cs) =
      let (bufs', sent) = call bufs c in let (bufs'', rest) = run bufs' cs in (bufs'', sent ++ rest)

  run_sweep-IsFifo :
      (sid : String) (cut : OutBuf → Cut)
      → ((buf : OutBuf) → IsBuf buf → IsCut buf (cut buf))
      → (bufs : Bufs) → IsBufs bufs
      → IsFifo marshal_len sid [] bufs (run_sweep marshal_len cut bufs)
  unfolding run_sweep
  run_sweep-IsFifo sid cut cuts bufs v = record {
    formed = sweep-IsBufs cut cuts bufs v;
    whole = sweep-whole cut cuts marshal_len sid bufs v ∙ sym (append-nil (queued sid bufs));
  }

  call-IsFifo :
      (sid : String) (bufs : Bufs) (c : Call)
      → IsCall c
      → IsBufs bufs
      → IsFifo marshal_len sid (added sid c) bufs (call bufs c)
  unfolding call tick flush_all seal_at
  call-IsFifo sid bufs (ticks interactive now) h v =
      run_sweep-IsFifo sid _ (cut_due-IsCut interactive now) bufs v
  call-IsFifo sid bufs (adds id d seq now) h v =
      add-IsFifo marshal_len sid id d seq now bufs h.0 h.1 v
  call-IsFifo sid bufs (flushes id) h v = flush_session-IsFifo marshal_len sid id bufs v
  call-IsFifo sid bufs flushes_all h v = run_sweep-IsFifo sid _ cut_all-IsCut bufs v
  call-IsFifo sid bufs (seals s) h v = run_sweep-IsFifo sid _ (cut_seal-IsCut s) bufs v

  IsFifo-trans :
      {sid : String} {p q : Bytes} {bufs : Bufs} {r t : Bufs × List Message}
      → IsFifo marshal_len sid p bufs r
      → IsFifo marshal_len sid q r.0 t
      → IsFifo marshal_len sid (p ++ q) bufs (t.0, r.1 ++ t.1)
  IsFifo-trans {sid} {p} {q} {bufs} {r} {t} a b = record {
    formed = b.formed;
    whole =
        ap (λ (x : Bytes). x ++ queued sid t.0) (sent_to-append sid r.1 t.1)
        ∙ append_assoc (sent_to sid r.1) (sent_to sid t.1) (queued sid t.0)
        ∙ ap (◌++◌ (sent_to sid r.1)) b.whole
        ∙ sym (append_assoc (sent_to sid r.1) (queued sid r.0) q)
        ∙ ap (λ (x : Bytes). x ++ q) a.whole
        ∙ append_assoc (queued sid bufs) p q;
  }

  -- Over any history of Add, tick, FlushSession, FlushAll and SealAt, from well-formed buffers, the
  -- buffers stay well formed (one for a session, each a segment of consecutive writes with its
  -- length and last number), and for every session the bytes sent, in order, followed by those
  -- still queued are those queued before followed by those added: none is lost, repeated or moved.
  pub run-IsFifo :
      (sid : String) (cs : List Call) (bufs : Bufs)
      → All IsCall cs
      → IsBufs bufs
      → IsFifo marshal_len sid (all_added sid cs) bufs (run bufs cs)
  unfolding run
  run-IsFifo sid [] bufs h v = record {
    formed = v;
    whole = unfold sent_to in sym (append-nil (queued sid bufs));
  }
  run-IsFifo sid (c ∷ cs) bufs h v =
      let first = call-IsFifo sid bufs c h.0 v in
      IsFifo-trans first (run-IsFifo sid cs (call bufs c).0 h.1 first.formed)

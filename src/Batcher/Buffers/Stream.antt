-- ===== src/Batcher/Buffers/Stream.antt =====
-- The batcher of cmd/claw/output_batcher.go as a byte stream for each session.
use clianywhere_daemon.Prelude.{
  string_key, ℕ, ◌^◌, ◌<◌, true, false, Option, none, some, List, [], ◌∷◌, ◌++◌, ◌≡◌, refl, ap, ◌∙◌,
  inl, inr, String, if◌then◌else◌, All, Bool-cases, beq_true, arith, append-nil, append_assoc, ◌==◌,
}
use clianywhere_daemon.Prelude.Assoc.{lookup}
use clianywhere_daemon.Protocol.{Bytes, Message}
use clianywhere_daemon.Batcher.{OutEntry, send_batch}
use clianywhere_daemon.Batcher.Packing.{payloads, IsSendable}
use clianywhere_daemon.Batcher.Packing.Segment.{Follows, last_seq, entry_bytes}
use clianywhere_daemon.Batcher.Packing.Results.{send_batch_lem, send_batch-IsSendable}
use clianywhere_daemon.Batcher.Buffers.{
  OutBuf, Bufs, Job, Cut, is_nil, raw_length, sweep, push_job, keep_buf, send_jobs,
}

-- A buffer holds a segment of consecutive writes.
pub record IsBuf (buf : OutBuf) : Type 0 where
  pub start : ℕ
  pub segment : Follows start buf.entries
  pub latest : last_seq start buf.entries ≡ buf.last_seq
  pub raw : buf.raw_len ≡ raw_length buf.entries
  pub bound : buf.last_seq < 2 ^ 64
  pub filled : is_nil buf.entries ≡ false

-- Each session has at most one buffer.
abbrev pub IsBufs : Bufs → Type 0
IsBufs [] = Unit
IsBufs ((id, buf) ∷ bufs) = IsBuf buf × (lookup id bufs ≡ none) × IsBufs bufs

abbrev pub buf_bytes : Option OutBuf → Bytes
buf_bytes none = []
buf_bytes (some buf) = entry_bytes buf.entries

-- The bytes that wait for a session.
abbrev pub queued : String → Bufs → Bytes
queued sid bufs = buf_bytes (lookup sid bufs)

-- The bytes that a list of messages brings a session.
unfoldable pub sent_to : String → List Message → Bytes
sent_to sid [] = []
sent_to sid (m ∷ ms) = if m.session_id == sid then m.payload ++ sent_to sid ms else sent_to sid ms

pub sent_to-append :
    (sid : String) (xs ys : List Message)
    → sent_to sid (xs ++ ys) ≡ sent_to sid xs ++ sent_to sid ys
unfolding sent_to
sent_to-append sid [] ys = refl
sent_to-append sid (m ∷ xs) ys =
    ground
      (arith, sent_to-append sid xs ys, append_assoc m.payload (sent_to sid xs) (sent_to sid ys))

sent_to-payloads :
    (sid id : String) (ms : List Message)
    → All (λ (m : Message). m.session_id ≡ id) ms
    → sent_to sid ms ≡ (if id == sid then payloads ms else [])
unfolding sent_to
sent_to-payloads sid id [] h = ground arith
sent_to-payloads sid id (m ∷ ms) h = rw h.0 (ground (arith, sent_to-payloads sid id ms h.1))

append-eq_nil : (xs ys : Bytes) → xs ++ ys ≡ [] → (xs ≡ []) × (ys ≡ [])
append-eq_nil [] ys h = (refl, h)
append-eq_nil (x ∷ xs) ys h = cc

abbrev job_bytes : Option (List OutEntry) → Bytes
job_bytes none = []
job_bytes (some es) = entry_bytes es

abbrev IsJob : Option (List OutEntry) → Type 0
IsJob none = Unit
IsJob (some es) = (c : ℕ) × Follows c es

abbrev IsKept : Option OutBuf → Type 0
IsKept none = Unit
IsKept (some buf) = IsBuf buf

-- What a cut takes and what it leaves make up the buffer.
pub record IsCut (buf : OutBuf) (cut : Cut) : Type 0 where
  pub whole : job_bytes cut.0 ++ buf_bytes cut.1 ≡ entry_bytes buf.entries
  pub job : IsJob cut.0
  pub kept : IsKept cut.1

module _ (marshal_len : Message → Option ℕ) where
  sendable-session :
      (id : String) (ms : List Message)
      → All (IsSendable marshal_len id) ms
      → All (λ (m : Message). m.session_id ≡ id) ms
  sendable-session id [] h = tt
  sendable-session id (m ∷ ms) h =
      (ap (λ (x : Message). x.session_id) h.0.0, sendable-session id ms h.1)

  pub sent_to-send_batch :
      (sid id : String) (c : ℕ) (es : List OutEntry)
      → Follows c es
      → sent_to sid (send_batch marshal_len id es) ≡ (if id == sid then entry_bytes es else [])
  sent_to-send_batch sid id c es h = rw (← (send_batch_lem marshal_len id c es h).1) (
      sent_to-payloads sid id (send_batch marshal_len id es) (
        sendable-session id (send_batch marshal_len id es)
          (send_batch-IsSendable marshal_len id c es h)))

  sent_to-push_job :
      (sid id : String) (job : Option (List OutEntry)) (jobs : List Job)
      → IsJob job
      → sent_to sid (send_jobs marshal_len (push_job id job jobs))
        ≡ (if id == sid then job_bytes job else []) ++ sent_to sid (send_jobs marshal_len jobs)
  unfolding send_jobs
  sent_to-push_job sid id none jobs h = ground arith
  sent_to-push_job sid id (some es) jobs h =
      sent_to-append sid (send_batch marshal_len id es) (send_jobs marshal_len jobs)
      ∙ ap (λ (x : Bytes). x ++ sent_to sid (send_jobs marshal_len jobs))
          (sent_to-send_batch sid id h.0 es h.1)

module _ (sid : String) where
  pub queued-absent :
      (id : String) (bufs : Bufs)
      → lookup id bufs ≡ none
      → (id == sid) ≡ true
      → queued sid bufs ≡ []
  queued-absent id bufs h e = ap buf_bytes (rw (beq_true id sid e) at h)

  queued-keep_buf :
      (id : String) (kept : Option OutBuf) (bufs : Bufs)
      → lookup id bufs ≡ none
      → queued sid (keep_buf id kept bufs) ≡ (if id == sid then buf_bytes kept else queued sid bufs)
  unfolding lookup
  queued-keep_buf id none bufs h = elim (Bool-cases (id == sid)) [
    | inl e ↦ rw e (queued-absent id bufs h e)
    | inr e ↦ rw e
  ]
  queued-keep_buf id (some buf) bufs h = ground arith

  queued-cons :
      (id : String) (buf : OutBuf) (bufs : Bufs)
      → queued sid ((id, buf) ∷ bufs)
        ≡ (if id == sid then entry_bytes buf.entries else queued sid bufs)
  unfolding lookup
  queued-cons id buf bufs = ground arith

lookup-keep_buf :
    (k id : String) (kept : Option OutBuf) (buf : OutBuf) (rest bufs : Bufs)
    → (lookup k bufs ≡ none → lookup k rest ≡ none)
    → lookup k ((id, buf) ∷ bufs) ≡ none
    → lookup k (keep_buf id kept rest) ≡ none
unfolding lookup
lookup-keep_buf k id none buf rest bufs ih h = ground arith
lookup-keep_buf k id (some b) buf rest bufs ih h = ground arith

IsBufs-keep_buf :
    (id : String) (kept : Option OutBuf) (bufs : Bufs)
    → IsKept kept
    → lookup id bufs ≡ none
    → IsBufs bufs
    → IsBufs (keep_buf id kept bufs)
IsBufs-keep_buf id none bufs k h v = v
IsBufs-keep_buf id (some buf) bufs k h v = (k, h, v)

module _ (cut : OutBuf → Cut) (cuts : (buf : OutBuf) → IsBuf buf → IsCut buf (cut buf)) where
  lookup-sweep :
      (k : String) (bufs : Bufs) → lookup k bufs ≡ none → lookup k (sweep cut bufs).1 ≡ none
  unfolding sweep
  lookup-sweep k [] h = h
  lookup-sweep k ((id, buf) ∷ bufs) h =
      lookup-keep_buf k id (cut buf).1 buf (sweep cut bufs).1 bufs (lookup-sweep k bufs) h

  -- A `range` over the buffers keeps them well formed.
  pub sweep-IsBufs : (bufs : Bufs) → IsBufs bufs → IsBufs (sweep cut bufs).1
  unfolding sweep
  sweep-IsBufs [] v = tt
  sweep-IsBufs ((id, buf) ∷ bufs) v =
      IsBufs-keep_buf id (cut buf).1 (sweep cut bufs).1 (cuts buf v.0).kept
        (lookup-sweep id bufs v.1) (sweep-IsBufs bufs v.2)

  -- What its jobs send a session and what stays queued for it make up what was queued.
  pub sweep-whole :
      (marshal_len : Message → Option ℕ) (sid : String) (bufs : Bufs)
      → IsBufs bufs
      → sent_to sid (send_jobs marshal_len (sweep cut bufs).0) ++ queued sid (sweep cut bufs).1
        ≡ queued sid bufs
  unfolding sweep
  sweep-whole marshal_len sid [] v = unfold sent_to send_jobs lookup in refl
  sweep-whole marshal_len sid ((id, buf) ∷ bufs) v =
      rw
        (
          sent_to-push_job marshal_len sid id (cut buf).0 (sweep cut bufs).0 (cuts buf v.0).job,
          queued-keep_buf sid id (cut buf).1 (sweep cut bufs).1 (lookup-sweep id bufs v.1),
          queued-cons sid id buf bufs,
        )
        (join (sweep-whole marshal_len sid bufs v.2))
    where
      rest : Bytes
      rest = sent_to sid (send_jobs marshal_len (sweep cut bufs).0)

      stay : Bytes
      stay = queued sid (sweep cut bufs).1

      join :
          rest ++ stay ≡ queued sid bufs
          → ((if id == sid then job_bytes (cut buf).0 else []) ++ rest)
              ++ (if id == sid then buf_bytes (cut buf).1 else stay)
            ≡ (if id == sid then entry_bytes buf.entries else queued sid bufs)
      join ih = elim (Bool-cases (id == sid)) [
        | inl e ↦
            let gone : rest ≡ [] =
              (append-eq_nil rest stay (ih ∙ queued-absent sid id bufs v.1 e)).0 in
            rw e (rw gone (rw append-nil (cuts buf v.0).whole))
        | inr e ↦ rw e ih
      ]

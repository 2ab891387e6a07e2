-- ===== src/Batcher/Buffers.antt =====
-- The buffers of cmd/claw/output_batcher.go and the operations on them. Times are nanoseconds.
--
-- Each operation runs as one step: sendMu and mu are held across the parts that must not
-- interleave, and one goroutine, the session's reader, calls Add for a session. An operation
-- returns the messages that it hands to `send`, in order.
pub mod Stream
pub mod Cuts
pub mod Shapes
pub mod Adding
pub mod Results
pub mod Sealing
use clianywhere_daemon.Prelude.{
  string_key, ℕ, zero, suc, ◌+◌, ◌-◌, ◌*◌, ◌%◌, ◌^◌, Bool, true, false, not, ◌&&◌, ◌||◌, Option,
  none, some, List, [], ◌∷◌, ◌++◌, String, if◌then◌else◌, leb, ltb, nat_beq, length, take, drop,
}
use clianywhere_daemon.Prelude.Assoc.{Map, lookup, insert, delete}
use clianywhere_daemon.Protocol.{Bytes, Message}
use clianywhere_daemon.Batcher.{OutEntry, send_batch, output_raw_cap, is_empty}

abbrev pub millisecond : ℕ
millisecond = 1000000

abbrev pub output_interactive_flush : ℕ
output_interactive_flush = 10 * millisecond

abbrev pub output_idle_flush : ℕ
output_idle_flush = 600 * millisecond

pub record OutBuf : Type 0 where
  pub entries : List OutEntry
  pub first_add : ℕ
  pub last_seq : ℕ
  pub raw_len : ℕ

-- The map `bufs` is the only state that the operations change.
abbrev pub Bufs : Type 0
Bufs = Map String OutBuf

-- flushJob
abbrev pub Job : Type 0
Job = String × List OutEntry

-- What the body of a `range` over `bufs` does with one buffer: the entries that it appends to
-- `jobs`, and the buffer that stays in the map.
abbrev pub Cut : Type 0
Cut = Option (List OutEntry) × Option OutBuf

abbrev pub is_nil {ℓ} : {A : Type ℓ} → List A → Bool
is_nil [] = true
is_nil (_ ∷ _) = false

-- tick: the deadline is reached, or the cap.
pub due : Bool → ℕ → OutBuf → Bool
due interactive now buf =
    leb (if interactive then output_interactive_flush else output_idle_flush) (now - buf.first_add)
    || leb output_raw_cap buf.raw_len

pub cut_due : Bool → ℕ → OutBuf → Cut
unfolding due
cut_due interactive now buf =
    if due interactive now buf then (some buf.entries, none) else (none, some buf)

-- FlushAll
pub cut_all : OutBuf → Cut
cut_all buf = (if is_nil buf.entries then none else some buf.entries, none)

-- SealAt: the index of the first entry after `h`, or the length.
pub split_at : ℕ → List OutEntry → ℕ
split_at h [] = 0
split_at h (e ∷ es) = if ltb h e.seq then 0 else suc (split_at h es)

abbrev pub raw_length : List OutEntry → ℕ
raw_length [] = 0
raw_length (e ∷ es) = length e.bytes + raw_length es

pub cut_seal : ℕ → OutBuf → Cut
unfolding split_at
cut_seal h buf =
    let split = split_at h buf.entries in
    let rest = drop split buf.entries in
    if nat_beq split 0
    then (none, some buf)
    else if nat_beq split (length buf.entries)
    then (some (take split buf.entries), none)
    else (
      some (take split buf.entries),
      some (record buf { entries = rest; raw_len = raw_length rest }),
    )

abbrev pub push_job : String → Option (List OutEntry) → List Job → List Job
push_job id none jobs = jobs
push_job id (some es) jobs = (id, es) ∷ jobs

abbrev pub keep_buf : String → Option OutBuf → Bufs → Bufs
keep_buf id none bufs = bufs
keep_buf id (some buf) bufs = (id, buf) ∷ bufs

-- `for id, buf := range b.bufs`: the jobs in the order of the visit, and the map after it.
pub sweep : (OutBuf → Cut) → Bufs → List Job × Bufs
sweep cut [] = ([], [])
sweep cut ((id, buf) ∷ bufs) =
    let (jobs, kept) = sweep cut bufs in
    (push_job id (cut buf).0 jobs, keep_buf id (cut buf).1 kept)

-- `uint64` addition wraps.
abbrev pub seq_after : ℕ → ℕ
seq_after seq = (seq + 1) % 2 ^ 64

-- The buffer is there, holds entries, and `seq` does not follow its last one.
abbrev pub has_gap : Option OutBuf → ℕ → Bool
has_gap none seq = false
has_gap (some buf) seq = not (is_nil buf.entries) && not (nat_beq seq (seq_after buf.last_seq))

abbrev pub append_entry : OutBuf → Bytes → ℕ → OutBuf
append_entry buf d seq = record buf {
  entries = buf.entries ++ record { seq = seq; bytes = d } ∷ [];
  last_seq = seq;
  raw_len = buf.raw_len + length d;
}

abbrev pub fresh_buf : ℕ → OutBuf
fresh_buf now = record { entries = []; first_add = now; last_seq = 0; raw_len = 0 }

abbrev pub or_fresh : Option OutBuf → ℕ → OutBuf
or_fresh none now = fresh_buf now
or_fresh (some buf) now = buf

-- Reset
pub reset : Bufs → Bufs × List Message
reset bufs = ([], [])

module _ (marshal_len : Message → Option ℕ) where
  -- `for _, job := range jobs { b.sendBatch(job.id, job.entries) }`
  pub send_jobs : List Job → List Message
  send_jobs [] = []
  send_jobs ((id, es) ∷ jobs) = send_batch marshal_len id es ++ send_jobs jobs

  pub run_sweep : (OutBuf → Cut) → Bufs → Bufs × List Message
  run_sweep cut bufs = let (jobs, kept) = sweep cut bufs in (kept, send_jobs jobs)

  pub tick : Bool → ℕ → Bufs → Bufs × List Message
  tick interactive now bufs = run_sweep (cut_due interactive now) bufs

  pub flush_all : Bufs → Bufs × List Message
  flush_all bufs = run_sweep cut_all bufs

  -- `h` is what `snapshot` returns.
  pub seal_at : ℕ → Bufs → Bufs × List Message
  seal_at h bufs = run_sweep (cut_seal h) bufs

  pub flush_session : String → Bufs → Bufs × List Message
  flush_session sid bufs = elim (lookup sid bufs) [
    | none ↦ (bufs, [])
    | some buf ↦
        if is_nil buf.entries
        then (bufs, [])
        else (delete sid bufs, send_batch marshal_len sid buf.entries)
  ]

  -- Add
  pub add : String → Bytes → ℕ → ℕ → Bufs → Bufs × List Message
  add sid d seq now bufs =
      let buf = lookup sid bufs in
      let (flushed, sent) = flush_session sid bufs in
      if is_empty d
      then (bufs, [])
      else if has_gap buf seq
      then (insert sid (append_entry (fresh_buf now) d seq) flushed, sent)
      else (insert sid (append_entry (or_fresh buf now) d seq) bufs, [])

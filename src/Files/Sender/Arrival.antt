-- ===== src/Files/Sender/Arrival.antt =====
-- cmd/claw/filetransfer.go: every pass of sendFile, and every run of passes and other events.
use clianywhere_daemon.Prelude.{
  if-holds, append-nil, ℕ, zero, suc, ◌<◌, Bool, true, false, List, [], ◌∷◌, ◌++◌, ◌≡◌, refl, inl,
  inr, arith, take, ltb, ◌&&◌, not,
}
use clianywhere_daemon.Protocol.{Bytes}
use clianywhere_daemon.Files.{FileSendTask, record_ack, close_once, close_cancel, window_full}
use clianywhere_daemon.Files.Sender.{
  is_empty, String, Transfer, Output, Turn, Event, ack, cancels, turn, Run, ends, cancel_task,
  cancelled, failed, read_chunk, pass, step, run,
}
use clianywhere_daemon.Files.Sender.Chunks.{finish-Delivers, send_chunk-Delivers}
use clianywhere_daemon.Files.Sender.Delivery.{Delivers, Quiet, Quiet-Delivers}

record_ack-id : (n : ℕ) (t : FileSendTask) → (record_ack n t).id ≡ t.id
unfolding record_ack
record_ack-id n t = ground arith

record_ack-total : (n : ℕ) (t : FileSendTask) → (record_ack n t).total_chunks ≡ t.total_chunks
unfolding record_ack
record_ack-total n t = ground arith

cancel_task-id : (t : FileSendTask) → (cancel_task t).id ≡ t.id
unfolding cancel_task close_once close_cancel
cancel_task-id t = ground arith

cancel_task-total : (t : FileSendTask) → (cancel_task t).total_chunks ≡ t.total_chunks
unfolding cancel_task close_once close_cancel
cancel_task-total t = ground arith

take-empty : (n : ℕ) (b : Bytes) → 0 < n → is_empty (take n b) ≡ true → b ≡ []
take-empty zero b h e = absurd (omega arith)
take-empty (suc n) [] h e = refl
take-empty (suc n) (x ∷ b) h e = cc

module _ (size : ℕ) (checksum : Bytes → Bytes) (id total : ℕ) (content : Bytes) where
  abbrev Keeps : List Output → Run → Type 0
  Keeps out r = Delivers size checksum id total content r.0 (out ++ r.1)

  abbrev Start : Transfer → List Output → Type 0
  Start s out = Delivers size checksum id total content s out

  abbrev Still : Transfer → Run → Type 0
  Still s r = Quiet size checksum id total content s r.0 r.1

  cancelled-Quiet : (s : Transfer) → s.running ≡ true → Still s (cancelled s)
  unfolding cancelled ends
  cancelled-Quiet s r = record {
    id_kept = refl;
    total_kept = refl;
    idx_kept = refl;
    rest_kept = refl;
    hashed_kept = refl;
    running_kept = λ q. r;
    no_data = refl;
    no_end = refl;
  }

  failed-Quiet : (why : String) (s : Transfer) → s.running ≡ true → Still s (failed why s)
  unfolding failed ends
  failed-Quiet why s r = record {
    id_kept = refl;
    total_kept = refl;
    idx_kept = refl;
    rest_kept = refl;
    hashed_kept = refl;
    running_kept = λ q. r;
    no_data = refl;
    no_end = refl;
  }

  -- A change of the task that leaves the id and the number of chunks.
  task-Quiet :
      (s : Transfer) (t : FileSendTask)
      → t.id ≡ s.task.id
      → t.total_chunks ≡ s.task.total_chunks
      → Still s (record s { task = t }, [])
  task-Quiet s t i n = record {
    id_kept = i;
    total_kept = n;
    idx_kept = refl;
    rest_kept = refl;
    hashed_kept = refl;
    running_kept = λ q. q;
    no_data = refl;
    no_end = refl;
  }

  module _ (positive : 0 < size) {s : Transfer} {out : List Output} (d : Start s out) where
    read_chunk-Keeps :
        (t : Turn)
        → s.running ≡ true
        → s.chunk_idx < total
        → Keeps out (read_chunk checksum size t s)
    unfolding read_chunk
    read_chunk-Keeps t r more =
        if-holds (Keeps out) t.read_fails
          (λ e.
            Quiet-Delivers size checksum id total content out (failed-Quiet "read failed" s r) d)
          (λ e.
            if-holds (Keeps out) (is_empty (take size s.rest))
              (λ empty.
                finish-Delivers size checksum id total content positive d t r
                  (inl (take-empty size s.rest positive empty)))
              (send_chunk-Delivers size checksum id total content positive d t r more))

    pass-Keeps :
        (use_window : Bool) (t : Turn)
        → s.running ≡ true
        → Keeps out (pass checksum size use_window t s)
    unfolding pass
    pass-Keeps use_window t r =
        if-holds (Keeps out) (not (ltb s.chunk_idx s.task.total_chunks))
          (λ last.
            finish-Delivers size checksum id total content positive d t r
              (inr (ground (arith, d.same_total))))
          (λ more.
            if-holds (Keeps out) s.task.closed
              (λ e. Quiet-Delivers size checksum id total content out (cancelled-Quiet s r) d)
              (λ e.
                if-holds (Keeps out) (use_window && window_full s.task.acked s.chunk_idx)
                  (λ w.
                    if-holds (Keeps out) t.times_out
                      (λ late.
                        Quiet-Delivers size checksum id total content out
                          (failed-Quiet "ack timeout (app stalled)" s r) d)
                      (λ waits.
                        Quiet-Delivers size checksum id total content out
                          (task-Quiet s (record s.task { notified = false }) refl refl) d))
                  (λ w. read_chunk-Keeps t r (ground (arith, d.same_total)))))

    step-Keeps : (use_window : Bool) (e : Event) → Keeps out (step checksum size use_window e s)
    unfolding step
    step-Keeps use_window (ack received) =
        Quiet-Delivers size checksum id total content out
          (task-Quiet s (record_ack received s.task) (record_ack-id received s.task)
            (record_ack-total received s.task))
          d
    step-Keeps use_window cancels =
        Quiet-Delivers size checksum id total content out
          (task-Quiet s (cancel_task s.task) (cancel_task-id s.task) (cancel_task-total s.task)) d
    step-Keeps use_window (turn t) =
        if-holds (Keeps out) s.running (pass-Keeps use_window t) (λ e. rw (append-nil out) d)

  pub run-Keeps :
      (use_window : Bool) (es : List Event) (r : Run)
      → 0 < size
      → Delivers size checksum id total content r.0 r.1
      → Delivers size checksum id total content
          (run checksum size use_window es r).0
          (run checksum size use_window es r).1
  unfolding run
  run-Keeps use_window [] r h d = d
  run-Keeps use_window (e ∷ es) (s, out) h d =
      run-Keeps use_window es
        ((step checksum size use_window e s).0, out ++ (step checksum size use_window e s).1) h
        (step-Keeps h d use_window e)

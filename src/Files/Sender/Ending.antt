-- ===== src/Files/Sender/Ending.antt =====
-- cmd/claw/filetransfer.go: sendFile ends, and delivers the file when nothing fails.
use clianywhere_daemon.Prelude.{
  length-append, ℕ, ◌+◌, ◌≤◌, ◌<◌, Bool, true, false, some, List, [], ◌∷◌, ◌++◌, ◌≡◌, refl, ap, ◌∙◌,
  inl, inr, arith, length, if◌then◌else◌, All,
}
use clianywhere_daemon.Protocol.{Bytes}
use clianywhere_daemon.Files.{FileSendTask, record_ack, int32_lt}
use clianywhere_daemon.Files.Sender.{
  Output, Transfer, Turn, Event, ack, turn, Run, start, pass, step, run,
}
use clianywhere_daemon.Files.Sender.Delivery.{controls-append, controls}
use clianywhere_daemon.Files.Sender.Passing.{pass-Passed, Moved, IsGood, InStep}
use clianywhere_daemon.Files.Sender.Window.{max_chunks}

-- The app acknowledges each chunk before the next pass.
pub serve : ℕ → List Turn → List Event
serve i [] = []
serve i (t ∷ ts) = turn t ∷ ack (i + 1) ∷ serve (i + 1) ts

module _ (checksum : Bytes → Bytes) (size : ℕ) (use_window : Bool) where
  acknowledged : (i : ℕ) → Transfer → Transfer
  acknowledged i s = record s { task = record_ack (i + 1) s.task }

  acknowledged-InStep :
      (i : ℕ) (s : Transfer) (r : Run)
      → InStep i s
      → Moved checksum size use_window i s r
      → InStep (i + 1) (acknowledged i r.0)
        × ((acknowledged i r.0).running ≡ true)
        × ((acknowledged i r.0).task.closed ≡ s.task.closed)
        × ((acknowledged i r.0).task.total_chunks ≡ s.task.total_chunks)
  unfolding acknowledged record_ack int32_lt
  acknowledged-InStep i s r h m = ground arith

  abbrev go : List Event → Run → Run
  go es r = run checksum size use_window es r

  -- One pass that gave `p`, and its acknowledgement.
  after_pass : ℕ → Run → Run → Run
  after_pass i r p = (acknowledged i p.0, (r.1 ++ p.1) ++ [])

  pass_if : Turn → Transfer → Bool → Run
  pass_if t s b = if b then pass checksum size use_window t s else (s, [])

  go-serve :
      (i : ℕ) (t : Turn) (ts : List Turn) (r : Run) (b : Bool)
      → r.0.running ≡ b
      → go (serve i (t ∷ ts)) r ≡ go (serve (i + 1) ts) (after_pass i r (pass_if t r.0 b))
  unfolding serve run step after_pass acknowledged pass_if
  go-serve i t ts r b e =
      ap (λ (c : Bool). go (serve (i + 1) ts) (after_pass i r (pass_if t r.0 c))) e

  length-controls_append :
      (out more : List Output)
      → length (controls (out ++ more)) ≡ length (controls out) + length (controls more)
  length-controls_append out more =
      ap length (controls-append out more) ∙ length-append (controls out) (controls more)

  controls-after_pass :
      (i : ℕ) (r p : Run)
      → length (controls (after_pass i r p).1) ≡ length (controls r.1) + length (controls p.1)
  unfolding after_pass
  controls-after_pass i r p =
      omega (arith, length-controls_append (r.1 ++ p.1) [], length-controls_append r.1 p.1)

  over_kept : (i : ℕ) (r p : Run) → p.0.running ≡ false → (after_pass i r p).0.running ≡ false
  unfolding after_pass acknowledged
  over_kept i r p h = h

  -- A transfer that has ended stays so, and what it has sent stays sent.
  run-over :
      (ts : List Turn) (i : ℕ) (r : Run)
      → r.0.running ≡ false
      → ((go (serve i ts) r).0.running ≡ false)
        × (length (controls r.1) ≤ length (controls (go (serve i ts) r).1))
  unfolding serve run pass_if
  run-over [] i r h = (h, omega arith)
  run-over (t ∷ ts) i r h =
      let p : Run = (r.0, []) in
      let rest = run-over ts (i + 1) (after_pass i r p) (over_kept i r p h) in
      rw (go-serve i t ts r false h) (rest.0, omega (arith, rest.1, controls-after_pass i r p))

  serve-Ends :
      (ts : List Turn) (i : ℕ) (r : Run)
      → InStep i r.0
      → r.0.running ≡ true
      → r.0.task.total_chunks < i + length ts
      → ((go (serve i ts) r).0.running ≡ false)
        × (All IsGood ts → r.0.task.closed ≡ false → 0 < length (controls (go (serve i ts) r).1))
  unfolding serve run pass_if after_pass
  serve-Ends [] i r h run_on few = absurd (omega (arith, h.within))
  serve-Ends (t ∷ ts) i r h run_on few =
      let p : Run = pass checksum size use_window t r.0 in
      rw (go-serve i t ts r true run_on)
        (elim (pass-Passed checksum size use_window i t r.0 h run_on) [
          | inl over ↦
              let rest = run-over ts (i + 1) (after_pass i r p) (over_kept i r p over.0) in
              (rest.0, λ g o. omega (arith, rest.1, controls-after_pass i r p, over.1 g.0 o))
          | inr m ↦
              let a = acknowledged-InStep i r.0 p h m in
              let rest =
                serve-Ends ts (i + 1) (after_pass i r p) a.0 a.1 (omega (arith, a.3, few)) in
              (rest.0, λ g o. rest.1 g.1 (a.2 ∙ o))
        ])

  start-InStep :
      (t : FileSendTask) (content : Bytes)
      → t.acked ≡ 0
      → t.total_chunks ≤ max_chunks
      → InStep 0 (start (some content) t).0
  unfolding start
  start-InStep t content fresh few = record {
    few = few;
    within = omega arith;
    sent = refl;
    level = fresh;
  }

  -- sendFile ends: in as many passes as the file has chunks and one more, each acknowledged before
  -- the next, whatever the channel, the reads and the timer do, with the window or without. If no
  -- send and no read fails and no cancellation comes, it has then sent the end message.
  pub serve_ends :
      (ts : List Turn) (t : FileSendTask) (content : Bytes)
      → t.acked ≡ 0
      → t.total_chunks ≤ max_chunks
      → t.total_chunks < length ts
      → ((go (serve 0 ts) (start (some content) t)).0.running ≡ false)
        × (All IsGood ts
            → t.closed ≡ false
            → 0 < length (controls (go (serve 0 ts) (start (some content) t)).1))
  unfolding start
  serve_ends ts t content fresh few enough =
      serve-Ends ts 0 (start (some content) t) (start-InStep t content fresh few) refl (omega arith)

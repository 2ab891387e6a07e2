-- ===== src/Files/Sender/Success.antt =====
-- cmd/claw/filetransfer.go: a transfer in which nothing fails.
use clianywhere_daemon.Prelude.{
  ℕ, ◌*◌, ◌^◌, ◌≤◌, ◌<◌, Bool, false, some, List, ◌≡◌, ap, ◌∙◌, inl, inr, arith, length, All,
}
use clianywhere_daemon.Protocol.{Bytes}
use clianywhere_daemon.Files.{FileSendTask}
use clianywhere_daemon.Files.Sender.{Turn, start, run}
use clianywhere_daemon.Files.Sender.Delivery.{data_frames, EndsWith}
use clianywhere_daemon.Files.Sender.Assembly.{assemble, assemble-run}
use clianywhere_daemon.Files.Sender.Window.{max_chunks}
use clianywhere_daemon.Files.Sender.Passing.{IsGood}
use clianywhere_daemon.Files.Sender.Ending.{serve, serve_ends}

module _ (use_window : Bool) (size : ℕ) (checksum : Bytes → Bytes) (ts : List Turn)
    (t : FileSendTask) (content : Bytes) where
  -- A file that its chunks can hold arrives whole, and its checksum with it, when the app
  -- acknowledges each chunk and no send, no read and no cancellation goes wrong, in one pass more
  -- than the file has chunks.
  pub serve_delivers :
      0 < size
      → t.id < 2 ^ 32
      → t.acked ≡ 0
      → t.closed ≡ false
      → t.total_chunks ≤ max_chunks
      → length content ≤ t.total_chunks * size
      → t.total_chunks < length ts
      → All IsGood ts
      → (assemble t.id 0
            (data_frames (run checksum size use_window (serve 0 ts) (start (some content) t)).1)
          ≡ some content)
        × EndsWith size checksum t.id t.total_chunks content
            (run checksum size use_window (serve 0 ts) (start (some content) t)).1
            content
  serve_delivers positive small fresh live few room enough good =
      let (prefix, tail, assembled, whole, outcome) =
        assemble-run use_window size checksum (serve 0 ts) t content positive small (omega arith)
          room in
      elim outcome [
        | inl none_sent ↦ absurd (
            omega (
              arith,
              (serve_ends checksum size use_window ts t content fresh few enough).1 good live,
              ap length none_sent,
            ))
        | inr (complete, end) ↦ (assembled ∙ ap some complete, end)
      ]

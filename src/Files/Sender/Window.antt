-- ===== src/Files/Sender/Window.antt =====
-- cmd/claw/filetransfer.go: awaitAckWindow among acknowledgements that arrive at any time.
use clianywhere_daemon.Prelude.{
  ℕ, ◌+◌, ◌-◌, ◌^◌, ◌≤◌, true, List, [], ◌∷◌, ◌++◌, ltb, if◌then◌else◌,
}
use clianywhere_daemon.Protocol.{Bytes}
use clianywhere_daemon.Files.Sender.{Transfer, Event, ack, cancels, turn, Run, step}

-- The app acknowledges only chunks that have been sent.
abbrev pub HonestAt : Event → Transfer → Type 0
HonestAt (ack n) s = n ≤ s.chunk_idx
HonestAt cancels s = Unit
HonestAt (turn t) s = Unit

-- The highest acknowledgement among the events and `b`.
abbrev pub acknowledged : List Event → ℕ → ℕ
acknowledged [] b = b
acknowledged (ack n ∷ es) b = acknowledged es (if ltb b n then n else b)
acknowledged (cancels ∷ es) b = acknowledged es b
acknowledged (turn t ∷ es) b = acknowledged es b

-- No int32 of the window's test overflows for a file of so few chunks.
abbrev pub max_chunks : ℕ
max_chunks = 2 ^ 31 - 5

pub record InWindow (s : Transfer) : Type 0 where
  pub few : s.task.total_chunks ≤ max_chunks
  pub within : s.chunk_idx ≤ s.task.total_chunks
  pub behind : s.task.acked ≤ s.chunk_idx
  pub window : s.chunk_idx ≤ s.task.acked + 4

module _ (checksum : Bytes → Bytes) (size : ℕ) where
  abbrev pub Honest : List Event → Run → Type 0
  Honest [] r = Unit
  Honest (e ∷ es) r =
      HonestAt e r.0
      × Honest es ((step checksum size true e r.0).0, r.1 ++ (step checksum size true e r.0).1)

  abbrev After : Run → Type 0
  After r = InWindow r.0

  abbrev AfterAck : ℕ → Run → Type 0
  AfterAck b r = r.0.task.acked ≤ b

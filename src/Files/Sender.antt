-- ===== src/Files/Sender.antt =====
-- cmd/claw/filetransfer.go: sendFile, one round of its loop at a time, among the acknowledgements and
-- cancellations that reach its task meanwhile.
--
-- A `turn` is one pass of the sender: the wait for the window, the check of the cancel channel, and
-- the chunk. A pass that finds the window full ends only by a token, a close or the timeout.
pub mod Delivery
pub mod Chunks
pub mod Arrival
pub mod Assembly
pub mod Window
pub mod Passing
pub mod Ending
pub mod Success
use clianywhere_daemon.Prelude.{
  ℕ, ◌+◌, Bool, true, false, not, ◌&&◌, Option, none, some, List, [], ◌∷◌, ◌++◌, length, take, drop,
  replicate, ltb, if◌then◌else◌, String,
}
use clianywhere_daemon.Protocol.{Bytes, Message, empty_message, opcode_file_transfer}
use clianywhere_daemon.Wire.{put_uint32}
use clianywhere_daemon.Batcher.{is_empty}
use clianywhere_daemon.Files.{FileSendTask, record_ack, window_full, close_once}

-- The goroutine: what it has not read yet, what it has hashed, and the loop's variable.
pub record Transfer : Type 0 where
  pub task : FileSendTask
  pub rest : Bytes
  pub hashed : Bytes
  pub chunk_idx : ℕ
  pub running : Bool

-- What it gives to the channel.
pub data Output : Type 0 where
  frame : Bytes → Output
  -- the frame of the message file_send_end
  control : Message → Output
  tells : Message → Output

-- What a pass meets: whether sendBytesCancelable sends, whether the read fails, and whether the
-- timer fires while the window is full.
pub record Turn : Type 0 where
  pub accepted : Bool
  pub read_fails : Bool
  pub times_out : Bool

pub data Event : Type 0 where
  ack : ℕ → Event
  cancels : Event
  turn : Turn → Event

abbrev pub Run : Type 0
Run = Transfer × List Output

-- [0x01][file id][chunk index][the bytes read]
unfoldable pub chunk_frame : ℕ → ℕ → Bytes → Bytes
unfolding put_uint32
chunk_frame id idx payload = opcode_file_transfer ∷ (put_uint32 id ++ put_uint32 idx ++ payload)

-- ctrlFrame of a marshalled message
unfoldable pub control_frame : Bytes → Bytes
control_frame json = opcode_file_transfer ∷ (replicate 8 0 ++ json)

unfoldable pub ends : Transfer → Transfer
ends s = record s { running = false }

unfoldable pub cancelled : Transfer → Run
unfolding ends
cancelled s =
    (ends s, tells (record empty_message { kind = "file_send_cancel"; file_id = s.task.id }) ∷ [])

unfoldable pub failed : String → Transfer → Run
unfolding ends
failed why s = (
  ends s,
  tells (record empty_message { kind = "file_send_error"; file_id = s.task.id; error = why }) ∷ [],
)

-- The sender's part after os.Open; an error of it is told and ends the task.
unfoldable pub start : Option Bytes → FileSendTask → Run
unfolding failed
start opened t = elim opened [
  | none ↦
      failed "open file failed"
        (record { task = t; rest = []; hashed = []; chunk_idx = 0; running = true })
  | some content ↦
      (record { task = t; rest = content; hashed = []; chunk_idx = 0; running = true }, [])
]

-- Cancel and CancelAll at the task.
unfoldable pub cancel_task : FileSendTask → FileSendTask
unfolding close_once
cancel_task t = elim (close_once t) [ none ↦ t | some t' ↦ t' ]

module _ (checksum : Bytes → Bytes) where
  unfoldable pub end_message : Transfer → Message
  end_message s = record empty_message {
    kind = "file_send_end";
    file_id = s.task.id;
    checksum = checksum s.hashed;
  }

  -- After the loop.
  unfoldable pub finish : Turn → Transfer → Run
  finish t s = (ends s, if t.accepted then control (end_message s) ∷ [] else [])

module _ (chunk_size : ℕ) where
  -- The bytes read are hashed and sent.
  unfoldable pub send_chunk : Turn → Bytes → Transfer → Run
  send_chunk t payload s =
      let s' = record s { rest = drop chunk_size s.rest; hashed = s.hashed ++ payload } in
      if t.accepted
      then (
        record s' {
          chunk_idx = s.chunk_idx + 1;
          task = record s.task { sent_chunks = s.chunk_idx + 1 };
        },
        frame (chunk_frame s.task.id s.chunk_idx payload) ∷ [],
      )
      else (ends s', [])

module _ (checksum : Bytes → Bytes) (chunk_size : ℕ) where
  -- io.ReadFull into the buffer
  unfoldable pub read_chunk : Turn → Transfer → Run
  read_chunk t s =
      let payload = take chunk_size s.rest in
      if t.read_fails
      then failed "read failed" s
      else if is_empty payload
      then finish checksum t s
      else send_chunk chunk_size t payload s

  module _ (use_window : Bool) where
    -- awaitAckWindow, the check of the channel cancel, and the rest of the pass
    unfoldable pub pass : Turn → Transfer → Run
    pass t s =
        if not (ltb s.chunk_idx s.task.total_chunks)
        then finish checksum t s
        else if s.task.closed
        then cancelled s
        else if use_window && window_full s.task.acked s.chunk_idx
        then (if t.times_out
            then failed "ack timeout (app stalled)" s
            else (record s { task = record s.task { notified = false } }, []))
        else read_chunk t s

    unfoldable pub step : Event → Transfer → Run
    step (ack received) s = (record s { task = record_ack received s.task }, [])
    step cancels s = (record s { task = cancel_task s.task }, [])
    step (turn t) s = if s.running then pass t s else (s, [])

    unfoldable pub run : List Event → Run → Run
    run [] r = r
    run (e ∷ es) r = let after = step e r.0 in run es (after.0, r.1 ++ after.1)

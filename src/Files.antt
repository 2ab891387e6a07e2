-- ===== src/Files.antt =====
-- cmd/claw/filetransfer.go: the manager of staged files and of transfers, and one transfer's task.
--
-- A task is shared between the manager, which finds it by its id, and the goroutine that sends the
-- file: it stands in `tasks`, and `active` holds its place there. `mu` is held for the whole of
-- each operation below, or for the part of it that reads and writes these fields.
pub mod Names
pub mod Manager
pub mod Sender
pub mod Sizes
pub mod Listing
mod Tests
use clianywhere_daemon.Prelude.{
  ℕ, ◌+◌, ◌-◌, ◌/◌, ◌%◌, ◌^◌, Bool, true, false, not, ◌&&◌, ◌||◌, Option, none, some, List, [], ◌∷◌,
  ltb, leb, nat_beq, if◌then◌else◌,
}
use clianywhere_daemon.Prelude.Assoc.{Map}
use clianywhere_daemon.Protocol.{Bytes, StagedFile, file_relay_chunk, secure_binary_overhead}
use clianywhere_daemon.Daemon.{Daemon}
use clianywhere_daemon.Daemon.Framing.{secure_overhead}
use clianywhere_daemon.Daemon.Outgoing.{channel_is_p2p, frame_limit_for_channel, active_channel}

abbrev pub file_ack_window : ℕ
file_ack_window = 4

-- the opcode, the file id and the chunk index
abbrev pub file_header_size : ℕ
file_header_size = 9

pub record StagedFileEntry : Type 0 where
  pub info : StagedFile
  pub file_path : Bytes

-- `acked` is an int32, here its 32-bit pattern; `notified` says that ackNotify holds a token,
-- `once` that cancelOnce has run, and `closed` that the channel cancel is closed.
pub record FileSendTask : Type 0 where
  pub id : ℕ
  pub file_name : Bytes
  pub file_path : Bytes
  pub file_size : ℕ
  pub total_chunks : ℕ
  pub sent_chunks : ℕ
  pub acked : ℕ
  pub notified : Bool
  pub once : Bool
  pub closed : Bool

pub record FileTransferManager : Type 0 where
  pub tasks : Map ℕ FileSendTask
  pub allocated : ℕ
  pub active : Map ℕ ℕ
  pub staged : List StagedFileEntry
  pub next_id : ℕ
  pub staged_dir : Bytes

-- NewFileTransferManager; the staging directory has been emptied.
unfoldable pub new_manager : Bytes → FileTransferManager
new_manager dir = record {
  tasks = [];
  allocated = 0;
  active = [];
  staged = [];
  next_id = 0;
  staged_dir = dir;
}

-- a < b of two int32, by their 32-bit patterns
unfoldable pub int32_lt : ℕ → ℕ → Bool
int32_lt a b = ltb ((a + 2 ^ 31) % 2 ^ 32) ((b + 2 ^ 31) % 2 ^ 32)

-- The test of awaitAckWindow's loop: the window is full for this chunk.
unfoldable pub window_full : ℕ → ℕ → Bool
unfolding int32_lt
window_full acked chunk = not (int32_lt (chunk % 2 ^ 32) ((acked + file_ack_window) % 2 ^ 32))

-- HandleAck on the task that it finds; `received` is the pattern of the message's int.
unfoldable pub record_ack : ℕ → FileSendTask → FileSendTask
unfolding int32_lt
record_ack received t =
    if int32_lt t.acked (received % 2 ^ 32)
    then record t { acked = received % 2 ^ 32; notified = true }
    else t

-- `close(task.cancel)`; `none` is the panic of a second close.
unfoldable pub close_cancel : FileSendTask → Option FileSendTask
close_cancel t = if t.closed then none else some (record t { closed = true })

-- `task.cancelOnce.Do(func() { close(task.cancel) })`
unfoldable pub close_once : FileSendTask → Option FileSendTask
unfolding close_cancel
close_once t = if t.once then some t else close_cancel (record t { once = true })

module _ {Aead Server : Type 0} where
  unfoldable pub file_chunk_limit_for : Daemon Aead Server → ℕ
  unfolding frame_limit_for_channel
  file_chunk_limit_for d =
      let limit = frame_limit_for_channel d in
      if not (channel_is_p2p d) && ltb file_relay_chunk limit then file_relay_chunk else limit

  -- chunkSize of startSendFromStaged, from the configured one; a negative one is 0 here.
  unfoldable pub chunk_size_for : ℕ → Daemon Aead Server → ℕ
  unfolding file_chunk_limit_for secure_overhead
  chunk_size_for configured d =
      let largest = file_chunk_limit_for d - file_header_size - secure_overhead d in
      if nat_beq configured 0 || ltb largest configured then largest else configured

-- totalChunks of startSendFromStaged
unfoldable pub total_chunks_for : ℕ → ℕ → ℕ
total_chunks_for file_size chunk_size =
    let total = (file_size + chunk_size - 1) / chunk_size in if nat_beq total 0 then 1 else total

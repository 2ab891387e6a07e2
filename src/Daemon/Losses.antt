-- ===== src/Daemon/Losses.antt =====
-- cmd/claw/daemon.go: a chunk of a history that is too long for the encrypted channel.
use clianywhere_daemon.Prelude.{ℕ, String}
use clianywhere_daemon.Protocol.{Bytes, Message, empty_message}
use clianywhere_daemon.Daemon.{Daemon}

-- The message of sendHistoryChunks for its first chunk
abbrev pub first_message : String → ℕ → Bytes → Message
first_message sid total raw = record empty_message {
  kind = "history_chunk";
  session_id = sid;
  payload = raw;
  chunk_index = 0;
  total_chunks = total;
}

-- ===== src/Rtc.antt =====
-- cmd/claw/webrtc.go: the two DataChannels of a P2P connection, and what is sent on which.
--
-- The package pion is an effect: a text or a frame that is handed to a channel. OnOpen of the
-- terminal channel takes the buffered texts under the lock and sends them after it: they stand in
-- `flushing`, and each is sent by a step of its own.
pub mod Frames
pub mod Routes
pub mod Order
pub mod Split
mod Tests
use clianywhere_daemon.Prelude.{
  ℕ, Bool, true, false, not, ◌&&◌, ◌||◌, Option, none, some, List, [], ◌∷◌, ◌++◌, length, ltb,
  nat_beq, get_or, if◌then◌else◌,
}
use clianywhere_daemon.Protocol.{Bytes, opcode_file_transfer, opcode_secure_binary}
use clianywhere_daemon.Batcher.{is_empty}

-- Of WebRTCConn: whether the channels were announced and are open, and the buffered texts.
pub record WebRtcConn : Type 0 where
  pub dc : Bool
  pub file_dc : Bool
  pub pending_msgs : List Bytes
  pub term_connected : Bool
  pub file_connected : Bool
  pub flushing : List Bytes

pub data RtcEffect : Type 0 where
  -- dc.SendText, dc.Send and fileDc.Send
  terminal_text terminal_frame file_frame : Bytes → RtcEffect

abbrev pub RtcRun : Type 0
RtcRun = WebRtcConn × List RtcEffect

unfoldable pub new_web_rtc_conn : WebRtcConn
new_web_rtc_conn = record {
  dc = false;
  file_dc = false;
  pending_msgs = [];
  term_connected = false;
  file_connected = false;
  flushing = [];
}

-- frameRoutesToFile
unfoldable pub frame_routes_to_file : Bytes → Bool
frame_routes_to_file [] = false
frame_routes_to_file (op ∷ rest) =
    if nat_beq op opcode_file_transfer
    then true
    else nat_beq op opcode_secure_binary
      && (ltb 9 (length (op ∷ rest)) && nat_beq (get_or (op ∷ rest) 9 0) opcode_file_transfer)

pub data Target : Type 0 where
  terminal file : Target

unfoldable pub terminal_target : WebRtcConn → Option Target
terminal_target w = if w.dc && w.term_connected then some terminal else none

-- binaryTargetLocked
unfoldable pub binary_target : Bytes → WebRtcConn → Option Target
binary_target b w =
    if frame_routes_to_file b
    then if not w.file_dc then terminal_target w else if w.file_connected then some file else none
    else terminal_target w

unfoldable pub frame_on : Target → Bytes → RtcEffect
frame_on terminal b = terminal_frame b
frame_on file b = file_frame b

-- SendBytes
unfoldable pub send_bytes : Bytes → WebRtcConn → RtcRun
send_bytes b w = elim (binary_target b w) [ none ↦ (w, []) | some t ↦ (w, frame_on t b ∷ []) ]

-- SendJSON of a text
unfoldable pub rtc_send_json : Bytes → WebRtcConn → RtcRun
rtc_send_json text w =
    if w.dc && w.term_connected
    then (w, terminal_text text ∷ [])
    else (record w { pending_msgs = w.pending_msgs ++ text ∷ [] }, [])

-- OnDataChannel, for the terminal and for a file channel
unfoldable pub announce : Target → WebRtcConn → WebRtcConn
announce terminal w = record w { dc = true }
announce file w = record w { file_dc = true }

-- The first part of OnOpen of the terminal channel
unfoldable pub open_terminal : WebRtcConn → WebRtcConn
open_terminal w = record w {
  term_connected = true;
  flushing = w.flushing ++ w.pending_msgs;
  pending_msgs = [];
}

-- One round of the loop in OnOpen
unfoldable pub flush_pending : WebRtcConn → RtcRun
flush_pending w = elim w.flushing [
  | [] ↦ (w, [])
  | text ∷ rest ↦ (record w { flushing = rest }, terminal_text text ∷ [])
]

-- OnClose of the terminal channel, OnOpen and OnClose of the file channel
unfoldable pub close_terminal : WebRtcConn → WebRtcConn
close_terminal w = record w { term_connected = false }

unfoldable pub set_file_open : Bool → WebRtcConn → WebRtcConn
set_file_open b w = record w { file_connected = b }

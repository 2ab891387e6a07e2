-- ===== src/Protocol.antt =====
-- cmd/claw/protocol.go: frame and payload limits, opcodes, message types and the Message struct.
use clianywhere_daemon.Prelude.{Option, none, Bool, false, ◌∷◌, ℕ, ◌*◌, ◌-◌, List, [], String}

-- Go's []byte and string contents: each element is a byte.
abbrev pub Bytes : Type 0
Bytes = List ℕ

abbrev pub max_frame_size : ℕ
max_frame_size = 4 * 1024 * 1024

abbrev pub p2p_max_message_size : ℕ
p2p_max_message_size = 64 * 1024 - 1024

abbrev pub proxy_p2p_chunk : ℕ
proxy_p2p_chunk = 60 * 1024

abbrev pub proxy_relay_chunk : ℕ
proxy_relay_chunk = 512 * 1024

abbrev pub file_relay_chunk : ℕ
file_relay_chunk = 1024 * 1024

abbrev pub max_sec_code_attempts : ℕ
max_sec_code_attempts = 11

abbrev pub secure_max_text_payload : ℕ
secure_max_text_payload = 24000

abbrev pub secure_binary_overhead : ℕ
secure_binary_overhead = 26

abbrev pub opcode_file_transfer : ℕ
opcode_file_transfer = 0x01

abbrev pub opcode_proxy_data : ℕ
opcode_proxy_data = 0x05

abbrev pub proxy_frame_header_size : ℕ
proxy_frame_header_size = 5

abbrev pub opcode_secure_binary : ℕ
opcode_secure_binary = 0x07

-- "000000"
abbrev pub default_sec_code : Bytes
default_sec_code = 48 ∷ 48 ∷ 48 ∷ 48 ∷ 48 ∷ 48 ∷ []

pub record SessionInfo : Type 0 where
  pub id : String
  pub pid : ℕ
  pub shell : String
  pub created_at : ℕ
  pub name : Bytes

pub record StagedFile : Type 0 where
  pub id : ℕ
  -- the name with the time in it
  pub file_name : Bytes
  pub original_name : Bytes
  pub size : ℕ
  pub time : Bytes

pub record DirEntry : Type 0 where
  pub name : Bytes
  pub size : ℕ
  pub mod_time : ℕ

pub record DirEntries : Type 0 where
  pub dirs : List DirEntry
  pub files : List DirEntry

-- The fields of the Message envelope that the modelled code sets or reads. `data` is the text of
-- the field as bytes, `kind` the field `Type`.
pub record Message : Type 0 where
  pub kind : String
  pub session_id : String
  pub payload : Bytes
  pub seq : ℕ
  pub outputs : ℕ
  pub total_chunks : ℕ
  pub chunk_index : ℕ
  pub file_id : ℕ
  pub error : String
  pub remaining_attempts : ℕ
  pub reason : String
  pub cols : ℕ
  pub rows : ℕ
  pub received : ℕ
  pub sid : Bytes
  pub pa : Bytes
  pub pb : Bytes
  pub tag_a : Bytes
  pub tag_b : Bytes
  pub exit_code : ℕ
  pub session_infos : List SessionInfo
  pub file_name : Bytes
  pub file_size : ℕ
  pub checksum : Bytes
  pub files : List StagedFile
  pub path : Bytes
  pub entries : Option DirEntries
  pub status_code : ℕ
  pub status_text : String
  pub headers_json : Bytes
  pub is_binary : Bool

-- A `Message{}` literal: the fields that it does not name are zero.
abbrev pub empty_message : Message
empty_message = record {
  kind = "";
  session_id = "";
  payload = [];
  seq = 0;
  outputs = 0;
  total_chunks = 0;
  chunk_index = 0;
  file_id = 0;
  error = "";
  remaining_attempts = 0;
  reason = "";
  cols = 0;
  rows = 0;
  received = 0;
  sid = [];
  pa = [];
  pb = [];
  tag_a = [];
  tag_b = [];
  exit_code = 0;
  session_infos = [];
  file_name = [];
  file_size = 0;
  checksum = [];
  files = [];
  path = [];
  entries = none;
  status_code = 0;
  status_text = "";
  headers_json = [];
  is_binary = false;
}

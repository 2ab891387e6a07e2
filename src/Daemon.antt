-- ===== src/Daemon.antt =====
-- cmd/claw/daemon.go and cmd/claw/secure_handshake.go: the daemon's state between two messages, and
-- what its handlers do to the outside.
--
-- Init has run, so that the managers and the batcher exist. One handler runs at a time.
-- `secCodeAttemptsLeft` is an int32, here its 32-bit pattern. A call of the PTY, file or proxy manager
-- is an effect; what the calls return is in `Env`.
pub mod Outgoing
pub mod Framing
pub mod Handshake
pub mod History
pub mod Handlers
pub mod Dispatch
pub mod Harmless
pub mod HarmlessHandshake
pub mod Guarded
pub mod Budget
pub mod Lockout
pub mod Losses
pub mod Muting
pub mod Sealed
pub mod Private
pub mod SealedHandshake
pub mod Confidential
mod Tests
use clianywhere_daemon.Prelude.{
  ℕ, ◌+◌, ◌-◌, ◌%◌, ◌^◌, Bool, true, false, Option, none, some, List, [], ◌∷◌, ◌++◌, String,
}
use clianywhere_daemon.Prelude.Assoc.{Map}
use clianywhere_daemon.Protocol.{Bytes, Message, max_sec_code_attempts}
use clianywhere_daemon.Secure.{SecureChannel}
use clianywhere_daemon.Batcher.Buffers.{Bufs}

-- cmd/claw/spake2.go, which the handshake calls.
pub record Spake (Server Keys : Type 0) : Type 0 where
  -- NewSpake2Server of the password's scalar, with the random bytes that it draws
  pub new_server : Bytes → Bytes → Option Server
  pub set_peer_share : Server → Bytes → Option Server
  pub share : Server → Bytes
  -- Finish and Transcript: the keys and the transcript, none on an error
  pub finish : Server → Bytes → String → Option (Keys × Bytes)
  pub key_s2c : Keys → Bytes
  pub key_c2s : Keys → Bytes
  pub tag_a : Keys → Bytes → Bytes
  pub tag_b : Keys → Bytes → Bytes
  pub verify_tag : Bytes → Bytes → Bool

-- pakeServer, pakeSid and pakeAccessKey, which are set and cleared together.
pub record Pake (Server : Type 0) : Type 0 where
  pub server : Server
  pub sid : Bytes
  pub access_key : String

pub record Daemon (Aead Server : Type 0) : Type 0 where
  pub access_key : String
  pub rtc_connected : Bool
  pub relay_connected : Bool
  pub channel_mode : String
  pub kicked : Bool
  pub sec_code_enabled : Bool
  pub sec_code_verified : Bool
  pub sec_code_attempts_left : ℕ
  pub secure : Option (SecureChannel Aead)
  pub pake : Option (Pake Server)
  pub pake_timer : Bool
  pub subscribed : Map String Bool
  pub muted : Map String Bool
  pub last_input_at : ℕ
  pub bufs : Bufs

-- Calls of the managers, made for the remote app.
pub data Request : Type 0 where
  pty_create pty_list : Request
  pty_destroy : String → Request
  pty_write : String → Bytes → Request
  pty_resize : String → ℕ → ℕ → Request
  pty_history : String → Request
  file_cancel file_request file_delete : ℕ → Request
  file_list : Request
  dir_list file_stage : Bytes → Request
  proxy_connect proxy_close proxy_http_fetch proxy_ws_connect : Message → Request

pub data Effect : Type 0 where
  to_p2p to_relay : Message → Effect
  local_output : String → Bytes → Effect
  requests : Request → Effect
  -- HandleAck, HandleWsMessage, HandleWsClose and HandleData, which no check guards
  file_ack : ℕ → ℕ → Effect
  proxy_ws_message proxy_ws_close : Message → Effect
  proxy_data : ℕ → Bytes → Effect
  cancels_files closes_proxies closes_rtc drains_relay : Effect
  exits : String → Effect

-- What the handlers read or get back from outside.
pub record Env : Type 0 where
  -- LoadSecurityCode
  pub security_code : Bytes
  pub random : Bytes
  pub now : ℕ
  -- the error of ptyMgr.Create, of HandleRequest, of HandleReqPending
  pub create_error : Option String
  pub request_error : ℕ → Option String
  pub stage_error : Bytes → Option String
  -- GetHistoryAt, or GetHistory when a dimension is 0
  pub history : String → ℕ → ℕ → Bytes × ℕ

-- `atomic.AddInt32(&d.secCodeAttemptsLeft, -1)`
abbrev pub decrement : ℕ → ℕ
decrement n = (n + (2 ^ 32 - 1)) % 2 ^ 32

module _ (Aead Server : Type 0) where
  -- A handler, or a part of one.
  abbrev pub Step : Type 0
  Step = Daemon Aead Server → Daemon Aead Server × List Effect

module _ {Aead Server : Type 0} where
  unfoldable pub skip : Step Aead Server
  skip d = (d, [])

  unfoldable pub does : Effect → Step Aead Server
  does e d = (d, e ∷ [])

  unfoldable pub sets : (Daemon Aead Server → Daemon Aead Server) → Step Aead Server
  sets f d = (f d, [])

  infixr 30 ◌>>◌
  unfoldable pub ◌>>◌ : Step Aead Server → Step Aead Server → Step Aead Server
  (f >> g) d = let (d', es) = f d in let (d'', es') = g d' in (d'', es ++ es')

  -- NewDaemon, and the counters that Init sets.
  unfoldable pub new_daemon : String → Bool → Daemon Aead Server
  new_daemon access_key enabled = record {
    access_key = access_key;
    rtc_connected = false;
    relay_connected = false;
    channel_mode = "";
    kicked = false;
    sec_code_enabled = enabled;
    sec_code_verified = false;
    sec_code_attempts_left = max_sec_code_attempts;
    secure = none;
    pake = none;
    pake_timer = false;
    subscribed = [];
    muted = [];
    last_input_at = 0;
    bufs = [];
  }

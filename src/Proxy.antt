-- ===== src/Proxy.antt =====
-- cmd/claw/proxy_manager.go: the tunnels that the app opens through the daemon.
--
-- The dialled connections, HTTP requests and their bodies are arguments: what the network answers.
-- Connection ids are texts.
pub mod Conns
pub mod Tracking
pub mod Closing
pub mod Bodies
pub mod Runs
pub mod Frames
mod Tests
use clianywhere_daemon.Prelude.{
  ℕ, zero, suc, ◌+◌, ◌-◌, ◌*◌, ◌/◌, ◌%◌, ◌^◌, Bool, true, false, not, ◌&&◌, ◌||◌, Option, none,
  some, List, [], ◌∷◌, ◌++◌, String, length, take, drop, min, ltb, nat_beq, if◌then◌else◌, nat_key,
  string_key,
}
use clianywhere_daemon.Prelude.Assoc.{Map, lookup}
use clianywhere_daemon.Protocol.{Bytes, Message, empty_message, opcode_proxy_data}
use clianywhere_daemon.Wire.{put_uint32}
use clianywhere_daemon.Proxy.Conns.{Pool, ProxyConn, empty_pool, register, remove_conn, close_all}

-- [0x05][connection id][the bytes read]
unfoldable pub proxy_frame : ℕ → Bytes → Bytes
proxy_frame id payload = opcode_proxy_data ∷ (put_uint32 id ++ payload)

abbrev pub http_chunk_size : ℕ
http_chunk_size = 20 * 1024

-- totalChunks of HandleHttpFetch
unfoldable pub http_total_chunks : ℕ → ℕ
http_total_chunks len =
    let total = (len + http_chunk_size - 1) / http_chunk_size in
    if nat_beq total 0 then 1 else total

-- One message of the response; the chunk is `bodyB64[start:end]`.
unfoldable pub http_chunk : Message → Bytes → ℕ → ℕ → Message
http_chunk response body total i =
    let start = i * http_chunk_size in
    let end =
      if ltb (length body) (start + http_chunk_size)
      then length body
      else start + http_chunk_size in
    record response {
      payload = take (end - start) (drop start body);
      chunk_index = i;
      total_chunks = total;
    }

-- The loop of HandleHttpFetch from message `i` on, with the rounds left.
unfoldable pub http_chunks : Message → Bytes → ℕ → ℕ → ℕ → List Message
http_chunks response body total zero i = []
http_chunks response body total (suc rounds) i =
    http_chunk response body total i ∷ http_chunks response body total rounds (i + 1)

-- The message that the loop copies
unfoldable pub response_head : String → ℕ → String → Bytes → Message
response_head id status_code status headers = record empty_message {
  kind = "proxy_http_response";
  session_id = id;
  status_code = status_code;
  status_text = status;
  headers_json = headers;
}

-- The messages of HandleHttpFetch for a body in base64.
unfoldable pub http_response : String → ℕ → String → Bytes → Bytes → List Message
http_response id status_code status headers body =
    let total = http_total_chunks (length body) in
    http_chunks (response_head id status_code status headers) body total total 0

pub record ProxyManager : Type 0 where
  pub tcp : Pool ℕ
  pub ws : Pool String

unfoldable pub new_proxy_manager : ProxyManager
new_proxy_manager = record { tcp = empty_pool; ws = empty_pool }

pub data ProxyEffect : Type 0 where
  tells : Message → ProxyEffect
  -- sendBytes
  frame : Bytes → ProxyEffect
  -- a write to a connection, by its place
  writes_tcp writes_ws : ℕ → Bytes → ProxyEffect

abbrev pub ProxyRun : Type 0
ProxyRun = ProxyManager × List ProxyEffect

-- A message of a kind about one connection
unfoldable pub about : String → String → String → Message
about kind id error = record empty_message { kind = kind; session_id = id; error = error }

-- removeConn and removeWsConn of the manager
unfoldable pub remove_tcp : ℕ → ProxyManager → ProxyManager
remove_tcp id p = record p { tcp = remove_conn id p.tcp }

unfoldable pub remove_ws : String → ProxyManager → ProxyManager
remove_ws id p = record p { ws = remove_conn id p.ws }

-- HandleConnect: the id as text and as number, and the error of the dial
unfoldable pub handle_connect : String → ℕ → Option String → ProxyManager → ProxyRun
handle_connect text id dial_error p =
    if nat_beq id 0
    then (p, tells (about "proxy_error" text "invalid connection id") ∷ [])
    else elim dial_error [
      | some e ↦ (p, tells (about "proxy_error" text e) ∷ [])
      | none ↦ (record p { tcp = register id p.tcp }, tells (about "proxy_connected" text "") ∷ [])
    ]

-- One round of readLoop at a place: whether it waited in Read before the connection was closed, the
-- bytes, and whether the connection has failed or ended, upon which the deferred removeConn runs.
unfoldable pub read_tcp : String → ℕ → Bool → Bytes → Bool → ProxyManager → ProxyRun
read_tcp text place waiting b failed p = elim (lookup place p.tcp.store) [
  | none ↦ (p, [])
  | some c ↦
      if c.closed && not waiting
      then (remove_tcp c.key p, [])
      else (let sent = if ltb 0 (length b) then frame (proxy_frame c.key b) ∷ [] else [] in
          if failed
          then (remove_tcp c.key p, sent ++ tells (about "proxy_close" text "") ∷ [])
          else (p, sent))
]

-- HandleData
unfoldable pub handle_data : ℕ → Bytes → Bool → ProxyManager → ProxyRun
handle_data id b write_fails p = elim (lookup id p.tcp.conns) [
  | none ↦ (p, [])
  | some place ↦ (if write_fails then remove_tcp id p else p, writes_tcp place b ∷ [])
]

-- HandleClose and HandleWsClose
unfoldable pub handle_close : ℕ → ProxyManager → ProxyRun
handle_close id p = (remove_tcp id p, [])

unfoldable pub handle_ws_close : String → ProxyManager → ProxyRun
handle_ws_close id p = (remove_ws id p, [])

-- HandleWsConnect
unfoldable pub handle_ws_connect : String → Option String → ProxyManager → ProxyRun
handle_ws_connect id dial_error p = elim dial_error [
  | some e ↦ (p, tells (about "proxy_ws_error" id e) ∷ [])
  | none ↦ (record p { ws = register id p.ws }, tells (about "proxy_ws_connected" id "") ∷ [])
]

-- One round of readWsLoop, likewise; the message in base64, `none` for an error.
unfoldable pub read_ws : ℕ → Bool → Option (Bytes × Bool) → ProxyManager → ProxyRun
read_ws place waiting received p = elim (lookup place p.ws.store) [
  | none ↦ (p, [])
  | some c ↦ if c.closed && not waiting then (remove_ws c.key p, []) else elim received [
    | none ↦ (remove_ws c.key p, tells (about "proxy_ws_close" c.key "") ∷ [])
    | some (encoded, binary) ↦ (
      p,
      tells (record empty_message {
        kind = "proxy_ws_message";
        session_id = c.key;
        payload = encoded;
        is_binary = binary;
      })
          ∷ [],
    )
  ]
]

-- HandleWsMessage, with what base64 decodes the text to
unfoldable pub handle_ws_message : String → Option Bytes → Bool → ProxyManager → ProxyRun
handle_ws_message id decoded write_fails p = elim (lookup id p.ws.conns) [
  | none ↦ (p, [])
  | some place ↦ elim decoded [
    | none ↦ (p, [])
    | some b ↦ (if write_fails then remove_ws id p else p, writes_ws place b ∷ [])
  ]
]

-- CloseAll
unfoldable pub close_all_conns : ProxyManager → ProxyManager
close_all_conns p = record { tcp = close_all p.tcp; ws = close_all p.ws }

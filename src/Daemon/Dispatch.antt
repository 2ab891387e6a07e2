-- ===== src/Daemon/Dispatch.antt =====
-- handleMessage and handleBinary of cmd/claw/daemon.go.
use clianywhere_daemon.Prelude.{
  not, false, ◌&&◌, none, some, List, [], ◌∷◌, String, string_key, ◌==◌, if◌then◌else◌, ltb, length,
  take, drop, nat_beq,
}
use clianywhere_daemon.Prelude.Assoc.{delete}
use clianywhere_daemon.Protocol.{Bytes, Message, empty_message, opcode_proxy_data}
use clianywhere_daemon.Wire.{get_be}
use clianywhere_daemon.Secure.{Crypto, first_byte}
use clianywhere_daemon.Daemon.{
  proxy_data, requests, Step, skip, does, sets, ◌>>◌, Env, Spake, pty_destroy, pty_write,
  pty_resize, file_cancel, file_delete, file_list, dir_list, file_ack, proxy_connect, proxy_close,
  proxy_http_fetch, proxy_ws_connect, proxy_ws_message, proxy_ws_close,
}
use clianywhere_daemon.Daemon.Outgoing.{send_json, unwrap_incoming_json, unwrap_incoming_binary}
use clianywhere_daemon.Daemon.Handshake.{handle_pake_start, handle_sec_confirm}
use clianywhere_daemon.Daemon.Handlers.{
  handle_kicked, handle_peer_offline, handle_create_session, handle_session_list, handle_history,
  handle_push_pause, handle_channel_select, handle_file_request, handle_req_pending,
}

-- The cases of `switch msg.Type`, those behind checkSecCode under `checked`.
pub data Checked : Type 0 where
  create_session destroy_session input resize session_list request_history push_pause : Checked
  file_send_cancel file_request_kind file_list_request file_delete_kind dir_list_request
        req_pending :
      Checked
  proxy_connect_kind proxy_close_kind proxy_fetch_kind proxy_ws_connect_kind : Checked

pub data Kind : Type 0 where
  checked : Checked → Kind
  pake_start sec_confirm kicked peer_offline ping channel_select file_ack_kind : Kind
  ws_message_kind ws_close_kind other : Kind

unfoldable pub kind_table : List (String × Kind)
kind_table =
    ("pake_start", pake_start)
    ∷ ("sec_confirm", sec_confirm)
    ∷ ("kicked", kicked)
    ∷ ("peer_offline", peer_offline)
    ∷ ("create_session", checked create_session)
    ∷ ("destroy_session", checked destroy_session)
    ∷ ("input", checked input)
    ∷ ("resize", checked resize)
    ∷ ("session_list", checked session_list)
    ∷ ("request_history", checked request_history)
    ∷ ("push_pause", checked push_pause)
    ∷ ("ping", ping)
    ∷ ("channel_select", channel_select)
    ∷ ("file_send_cancel", checked file_send_cancel)
    ∷ ("file_request", checked file_request_kind)
    ∷ ("file_ack", file_ack_kind)
    ∷ ("file_list_request", checked file_list_request)
    ∷ ("file_delete", checked file_delete_kind)
    ∷ ("dir_list_request", checked dir_list_request)
    ∷ ("req_pending", checked req_pending)
    ∷ ("proxy_connect", checked proxy_connect_kind)
    ∷ ("proxy_close", checked proxy_close_kind)
    ∷ ("proxy_http_fetch", checked proxy_fetch_kind)
    ∷ ("proxy_ws_connect", checked proxy_ws_connect_kind)
    ∷ ("proxy_ws_message", ws_message_kind)
    ∷ ("proxy_ws_close", ws_close_kind)
    ∷ []

unfoldable pub find_kind : List (String × Kind) → String → Kind
find_kind [] t = other
find_kind ((name, kind) ∷ table) t = if t == name then kind else find_kind table t

unfoldable pub kind_of : String → Kind
unfolding find_kind kind_table
kind_of t = find_kind kind_table t

module _ {Aead Server Keys : Type 0} (k : Crypto Aead) (s : Spake Server Keys) (env : Env) where
  -- What a case does once checkSecCode has returned true.
  unfoldable pub run_checked : Checked → Message → Step Aead Server
  run_checked create_session msg =
      sets (λ d. record d { kicked = false }) >> handle_create_session k env msg
  run_checked destroy_session msg =
      does (requests (pty_destroy msg.session_id))
      >> sets (λ d. record d { subscribed = delete msg.session_id d.subscribed })
  run_checked input msg =
      sets (λ d. record d { last_input_at = env.now })
      >> does (requests (pty_write msg.session_id msg.payload))
  run_checked resize msg =
      if ltb 0 msg.cols && ltb 0 msg.rows
      then does (requests (pty_resize msg.session_id msg.cols msg.rows))
      else skip
  run_checked session_list msg = sets (λ d. record d { kicked = false }) >> handle_session_list k
  run_checked request_history msg = handle_history k env msg
  run_checked push_pause msg = handle_push_pause k msg
  run_checked file_send_cancel msg =
      if ltb 0 msg.file_id then does (requests (file_cancel msg.file_id)) else skip
  run_checked file_request_kind msg = handle_file_request k env msg
  run_checked file_list_request msg = does (requests file_list)
  run_checked file_delete_kind msg = does (requests (file_delete msg.file_id))
  run_checked dir_list_request msg = does (requests (dir_list msg.payload))
  run_checked req_pending msg = handle_req_pending k env msg
  run_checked proxy_connect_kind msg = does (requests (proxy_connect msg))
  run_checked proxy_close_kind msg = does (requests (proxy_close msg))
  run_checked proxy_fetch_kind msg = does (requests (proxy_http_fetch msg))
  run_checked proxy_ws_connect_kind msg = does (requests (proxy_ws_connect msg))

  -- checkSecCode and the case after it
  unfoldable pub check_sec_code : Step Aead Server → Step Aead Server
  check_sec_code op d =
      if d.sec_code_verified
      then op d
      else send_json k (record empty_message { kind = "error"; error = "Security code required" }) d

  unfoldable pub run_kind : Kind → Message → Step Aead Server
  unfolding check_sec_code run_checked
  run_kind (checked c) msg = check_sec_code (run_checked c msg)
  run_kind pake_start msg = handle_pake_start k s env msg
  run_kind sec_confirm msg = handle_sec_confirm k s msg
  run_kind kicked msg = handle_kicked k msg
  run_kind peer_offline msg = handle_peer_offline k
  run_kind ping msg = send_json k (record empty_message { kind = "pong" })
  run_kind channel_select msg = handle_channel_select k msg
  run_kind file_ack_kind msg = does (file_ack msg.file_id msg.received)
  run_kind ws_message_kind msg = does (proxy_ws_message msg)
  run_kind ws_close_kind msg = does (proxy_ws_close msg)
  run_kind other msg = skip

  -- handleMessage
  unfoldable pub handle_message : Message → Step Aead Server
  unfolding run_kind kind_of
  handle_message msg d =
      let (d', inner) = unwrap_incoming_json k msg d in
      elim inner [ none ↦ (d', []) | some m ↦ run_kind (kind_of m.kind) m d' ]

  -- The switch on the opcode: a proxy frame names its connection in four bytes.
  unfoldable pub route_binary : Bytes → Step Aead Server
  route_binary frame =
      if nat_beq (first_byte frame) opcode_proxy_data && not (ltb (length frame) 5)
      then does (proxy_data (get_be (take 4 (drop 1 frame))) (drop 5 frame))
      else skip

  -- handleBinary
  unfoldable pub handle_binary : Bytes → Step Aead Server
  unfolding route_binary
  handle_binary frame d =
      let (d', plain) = unwrap_incoming_binary k frame d in
      elim plain [ none ↦ (d', []) | some f ↦ route_binary f d' ]

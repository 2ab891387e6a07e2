-- ===== src/Daemon/Handlers.antt =====
-- cmd/claw/daemon.go: the handlers that handleMessage calls, and sendOutput.
use clianywhere_daemon.Prelude.{
  ℕ, ◌+◌, Bool, true, false, not, ◌&&◌, ◌||◌, Option, none, some, List, [], ◌∷◌, String, string_key,
  ◌==◌, if◌then◌else◌, length, nat_beq, leb,
}
use clianywhere_daemon.Prelude.Assoc.{Map, lookup, insert, delete}
use clianywhere_daemon.Protocol.{Bytes, Message, empty_message}
use clianywhere_daemon.Secure.{Crypto}
use clianywhere_daemon.Batcher.Buffers.{seal_at, add}
use clianywhere_daemon.Daemon.{
  Daemon, Effect, requests, cancels_files, closes_proxies, closes_rtc, drains_relay, local_output,
  exits, pty_create, pty_list, pty_history, file_request, file_stage, Step, skip, does, sets, ◌>>◌,
  Env,
}
use clianywhere_daemon.Daemon.Outgoing.{
  send_json, send_json_direct, send_all, flush, channel_is_p2p, marshal_length,
}
use clianywhere_daemon.Daemon.History.{history_plain_chunks}
use clianywhere_daemon.Daemon.Handshake.{reset_secure}

abbrev pub is_true : Option Bool → Bool
is_true none = false
is_true (some b) = b

-- `subscribed[id]` and `muted[id]`, false if missing
abbrev pub holds : Map String Bool → String → Bool
holds m id = is_true (lookup id m)

-- `for id := range d.subscribed { d.muted[id] = true }`
unfoldable pub mute_all : Map String Bool → Map String Bool → Map String Bool
mute_all [] muted = muted
mute_all ((id, _) ∷ subscribed) muted = mute_all subscribed (insert id true muted)

abbrev pub same_bytes : Bytes → Bytes → Bool
same_bytes [] [] = true
same_bytes [] (y ∷ ys) = false
same_bytes (x ∷ xs) [] = false
same_bytes (x ∷ xs) (y ∷ ys) = nat_beq x y && same_bytes xs ys

-- The two channel names; any other text is left empty.
abbrev pub channel_text : Bytes → String
channel_text t =
    if same_bytes t (112 ∷ 50 ∷ 112 ∷ [])
    then "p2p"
    else if same_bytes t (116 ∷ 115 ∷ [])
    then "ts"
    else ""

module _ {Aead Server : Type 0} (k : Crypto Aead) where
  unfoldable pub send_chunks : String → ℕ → ℕ → List Bytes → Step Aead Server
  send_chunks sid total i [] d = (d, [])
  send_chunks sid total i (raw ∷ chunks) d =
      (send_json_direct k (record empty_message {
        kind = "history_chunk";
        session_id = sid;
        payload = raw;
        chunk_index = i;
        total_chunks = total;
      })
          >> send_chunks sid total (i + 1) chunks)
        d

  -- sendHistoryChunks
  unfoldable pub send_history_chunks : String → Bytes → ℕ → Step Aead Server
  unfolding send_chunks
  send_history_chunks sid bytes seq =
      let chunks = history_plain_chunks k bytes in
      let total = length chunks in
      send_json k (record empty_message {
        kind = "history_start";
        session_id = sid;
        seq = seq;
        total_chunks = total;
      })
      >> send_chunks sid total 0 chunks
      >> send_json k
          (record empty_message { kind = "history_end"; session_id = sid; total_chunks = total })

  -- outBatcher.SealAt
  unfoldable pub seal : ℕ → Step Aead Server
  seal h d =
      let (bufs, ms) = seal_at (marshal_length k) h d.bufs in
      send_all k ms (record d { bufs = bufs })

  -- handleHistory
  unfoldable pub handle_history : Env → Message → Step Aead Server
  handle_history env msg =
      let (bytes, seq) = env.history msg.session_id msg.cols msg.rows in
      sets (λ d. record d { muted = delete msg.session_id d.muted })
      >> does (requests (pty_history msg.session_id))
      >> seal seq
      >> (if leb (length bytes) 4096
          then send_json k (record empty_message {
            kind = "history_data";
            session_id = msg.session_id;
            payload = bytes;
            seq = seq;
          })
          else send_history_chunks msg.session_id bytes seq)
      >> sets (λ d. record d { subscribed = insert msg.session_id true d.subscribed })

  -- handlePushPause
  unfoldable pub handle_push_pause : Message → Step Aead Server
  handle_push_pause msg =
      flush k
      >> sets (λ d. record d {
        muted =
            if msg.session_id == ""
            then mute_all d.subscribed d.muted
            else insert msg.session_id true d.muted;
      })

  -- handlePeerOffline
  unfoldable pub handle_peer_offline : Step Aead Server
  handle_peer_offline d = if channel_is_p2p d then (d, []) else (
    record (reset_secure d) { subscribed = []; channel_mode = "" },
    cancels_files ∷ closes_proxies ∷ [],
  )

  abbrev pub select_p2p : Step Aead Server
  select_p2p d = (reset_secure (record d { sec_code_verified = false }), [])

  -- handleChannelSelect
  unfoldable pub handle_channel_select : Message → Step Aead Server
  handle_channel_select msg =
      let channel = channel_text msg.payload in
      let p2p = channel == "p2p" in
      let switch =
        flush k
        >> (if p2p then select_p2p else skip)
        >> sets (λ d. record d { channel_mode = channel })
        >> send_json k (record empty_message { kind = "channel_selected"; payload = msg.payload })
        >> (if p2p then does drains_relay else skip) in
      if p2p || channel == "ts" then switch else skip

  -- handleCreateSession
  unfoldable pub handle_create_session : Env → Message → Step Aead Server
  handle_create_session env msg =
      sets (λ d. record d { subscribed = insert msg.session_id true d.subscribed })
      >> does (requests pty_create)
      >> elim env.create_error [
        | some e ↦
            sets (λ d. record d { subscribed = delete msg.session_id d.subscribed })
            >> send_json k
                (record empty_message { kind = "error"; session_id = msg.session_id; error = e })
        | none ↦
            send_json k
              (record empty_message { kind = "session_created"; session_id = msg.session_id })
      ]

  -- handleSessionList; the lists in the reply are left out.
  unfoldable pub handle_session_list : Step Aead Server
  handle_session_list =
      does (requests pty_list) >> send_json k (record empty_message { kind = "session_info" })

  -- The reply to a request that failed
  unfoldable pub reply_error : Option String → Step Aead Server
  reply_error none = skip
  reply_error (some e) = send_json k (record empty_message { kind = "error"; error = e })

  -- handleFileRequest
  unfoldable pub handle_file_request : Env → Message → Step Aead Server
  handle_file_request env msg =
      does (requests (file_request msg.file_id)) >> reply_error (env.request_error msg.file_id)

  -- The case TypeReqPending
  unfoldable pub handle_req_pending : Env → Message → Step Aead Server
  handle_req_pending env msg =
      does (requests (file_stage msg.payload)) >> reply_error (env.stage_error msg.payload)

  -- The case TypeKicked
  unfoldable pub handle_kicked : Message → Step Aead Server
  handle_kicked msg =
      if msg.reason == "daemon_replaced"
      then does (exits "kicked")
      else (does cancels_files
          >> does closes_proxies
          >> does closes_rtc
          >> sets (λ d. record d {
            kicked = true;
            bufs = [];
            rtc_connected = false;
            channel_mode = "";
            subscribed = [];
            muted = [];
          }))

  -- The branch of P2P: one message for each write
  unfoldable pub direct_output : String → Bytes → ℕ → Step Aead Server
  direct_output sid bytes seq = send_json_direct k (record empty_message {
    kind = "output";
    session_id = sid;
    payload = bytes;
    seq = seq;
    outputs = 1;
  })

  -- outBatcher.Add
  unfoldable pub batch_output : ℕ → String → Bytes → ℕ → Step Aead Server
  batch_output now sid bytes seq d =
      let (bufs, ms) = add (marshal_length k) sid bytes seq now d.bufs in
      send_all k ms (record d { bufs = bufs })

  -- sendOutput, at the time `now` in nanoseconds
  unfoldable pub send_output : ℕ → String → Bytes → ℕ → Step Aead Server
  send_output now sid bytes seq d =
      let direct = direct_output sid bytes seq d in
      let batched = batch_output now sid bytes seq d in
      let out : Daemon Aead Server × List Effect =
        if not (holds d.subscribed sid) || holds d.muted sid
        then (d, [])
        else if not d.sec_code_verified
        then (d, [])
        else if channel_is_p2p d
        then direct
        else if not d.relay_connected
        then (d, [])
        else batched in
      (out.0, local_output sid bytes ∷ out.1)

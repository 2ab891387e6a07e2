-- ===== src/Daemon/Private.antt =====
-- The cases of handleMessage in cmd/claw/daemon.go that are behind checkSecCode, while the channel is active.
use clianywhere_daemon.Prelude.{string_key, ℕ, ◌+◌, refl, Option, none, some, List, [], ◌∷◌, String}
use clianywhere_daemon.Protocol.{empty_message, Bytes, Message}
use clianywhere_daemon.Secure.{Crypto}
use clianywhere_daemon.Daemon.{◌>>◌, sets, Env, Spake}
use clianywhere_daemon.Daemon.Outgoing.{send_json}
use clianywhere_daemon.Daemon.Handlers.{
  handle_req_pending, handle_file_request, handle_push_pause, handle_create_session,
  handle_session_list, reply_error, send_chunks, send_history_chunks, seal, handle_history,
}
use clianywhere_daemon.Daemon.Dispatch.{
  create_session, destroy_session, input, resize, session_list, request_history, push_pause,
  file_send_cancel, file_request_kind, file_list_request, file_delete_kind, dir_list_request,
  req_pending, proxy_connect_kind, proxy_close_kind, proxy_fetch_kind, proxy_ws_connect_kind,
  Checked, run_checked,
}
use clianywhere_daemon.Prelude.Assoc.{delete}
use clianywhere_daemon.Daemon.Sealed.{
  secure_active, IsSealing, then-Seals, does-Seals, skip-Seals, sets-Seals, if-Seals,
  send_json_direct-Seals, send_all-Seals, flush-Seals, send_json-Seals,
}

module _ {Aead Server : Type 0} (k : Crypto Aead) where
  send_chunks-Seals :
      (sid : String) (total i : ℕ) (chunks : List Bytes)
      → IsSealing {Server = Server} (send_chunks k sid total i chunks)
  unfolding send_chunks
  send_chunks-Seals sid total i [] d a = (tt, a)
  send_chunks-Seals sid total i (raw ∷ chunks) d a =
      then-Seals _ (send_chunks k sid total (i + 1) chunks) (send_json_direct-Seals k _)
        (send_chunks-Seals sid total (i + 1) chunks) d a

  send_history_chunks-Seals :
      (sid : String) (bytes : Bytes) (seq : ℕ)
      → IsSealing {Server = Server} (send_history_chunks k sid bytes seq)
  unfolding send_history_chunks
  send_history_chunks-Seals sid bytes seq =
      then-Seals _ _ (send_json-Seals k _)
        (then-Seals _ _ (send_chunks-Seals sid _ 0 _) (send_json-Seals k _))

  seal-Seals : (h : ℕ) → IsSealing {Server = Server} (seal k h)
  unfolding seal secure_active
  seal-Seals h d a = send_all-Seals k _ (record d { bufs = _ }) a

  handle_history-Seals :
      (env : Env) (msg : Message) → IsSealing {Server = Server} (handle_history k env msg)
  unfolding handle_history
  handle_history-Seals env msg = then-Seals _ _ (sets-Seals _ (λ d. refl)) (
      then-Seals _ _ (does-Seals _ refl) (
        then-Seals _ _ (seal-Seals _) (
          then-Seals _ _ (if-Seals _ _ _ (send_json-Seals k _) (send_history_chunks-Seals _ _ _))
            (sets-Seals _ (λ d. refl)))))

  handle_create_session-Seals :
      (env : Env) (msg : Message) → IsSealing {Server = Server} (handle_create_session k env msg)
  unfolding handle_create_session
  handle_create_session-Seals env msg =
      then-Seals _ _ (sets-Seals _ (λ d. refl))
        (then-Seals _ _ (does-Seals _ refl) (created env.create_error))
    where
      created :
          (o : Option String)
          → IsSealing {Server = Server} (elim o [
            | some e ↦
                sets (λ d. record d { subscribed = delete msg.session_id d.subscribed })
                >> send_json k (record empty_message {
                  kind = "error";
                  session_id = msg.session_id;
                  error = e;
                })
            | none ↦
                send_json k
                  (record empty_message { kind = "session_created"; session_id = msg.session_id })
          ])
      created none = send_json-Seals k _
      created (some e) = then-Seals _ _ (sets-Seals _ (λ d. refl)) (send_json-Seals k _)

  reply_error-Seals : (e : Option String) → IsSealing {Server = Server} (reply_error k e)
  unfolding reply_error
  reply_error-Seals none = skip-Seals
  reply_error-Seals (some e) = send_json-Seals k _

  module _ {Keys : Type 0} (s : Spake Server Keys) (env : Env) where
    pub run_checked-Seals : (c : Checked) (msg : Message) → IsSealing (run_checked k s env c msg)
    unfolding run_checked handle_session_list handle_push_pause handle_file_request
        handle_req_pending
    run_checked-Seals create_session msg =
        then-Seals _ _ (sets-Seals _ (λ d. refl)) (handle_create_session-Seals env msg)
    run_checked-Seals destroy_session msg =
        then-Seals _ _ (does-Seals _ refl) (sets-Seals _ (λ d. refl))
    run_checked-Seals input msg = then-Seals _ _ (sets-Seals _ (λ d. refl)) (does-Seals _ refl)
    run_checked-Seals resize msg = if-Seals _ _ _ (does-Seals _ refl) skip-Seals
    run_checked-Seals session_list msg =
        then-Seals _ _ (sets-Seals _ (λ d. refl))
          (then-Seals _ _ (does-Seals _ refl) (send_json-Seals k _))
    run_checked-Seals request_history msg = handle_history-Seals env msg
    run_checked-Seals push_pause msg = then-Seals _ _ (flush-Seals k) (sets-Seals _ (λ d. refl))
    run_checked-Seals file_send_cancel msg = if-Seals _ _ _ (does-Seals _ refl) skip-Seals
    run_checked-Seals file_request_kind msg =
        then-Seals _ _ (does-Seals _ refl) (reply_error-Seals (env.request_error msg.file_id))
    run_checked-Seals file_list_request msg = does-Seals _ refl
    run_checked-Seals file_delete_kind msg = does-Seals _ refl
    run_checked-Seals dir_list_request msg = does-Seals _ refl
    run_checked-Seals req_pending msg =
        then-Seals _ _ (does-Seals _ refl) (reply_error-Seals (env.stage_error msg.payload))
    run_checked-Seals proxy_connect_kind msg = does-Seals _ refl
    run_checked-Seals proxy_close_kind msg = does-Seals _ refl
    run_checked-Seals proxy_fetch_kind msg = does-Seals _ refl
    run_checked-Seals proxy_ws_connect_kind msg = does-Seals _ refl

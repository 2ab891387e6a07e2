-- ===== src/Rtc/Tests.antt =====
-- Witnesses for the P2P connection: texts before and after it opens, and a frame of each kind.
use clianywhere_daemon.Prelude.{
  ◌++◌, ◌≡◌, refl, true, false, some, List, [], ◌∷◌, All, replicate, drop,
}
use clianywhere_daemon.Protocol.{Bytes, empty_message}
use clianywhere_daemon.Rtc.{
  close_terminal, flush_pending, frame_routes_to_file, open_terminal, announce, rtc_send_json,
  new_web_rtc_conn, WebRtcConn, terminal,
}
use clianywhere_daemon.Rtc.Order.{
  rtc_step, texts-rtc_run, sends_text, sends_frame, announces, terminal_opens, terminal_closes,
  flushes, file_turns, RtcEvent, AllQuiet, waiting, texts, given, rtc_run,
}
use clianywhere_daemon.Rtc.Split.{IsPlaced, IsSplit, rtc_run-IsSplit}
use clianywhere_daemon.Daemon.{new_daemon, Daemon}
use clianywhere_daemon.Secure.{secure_frame, wrap_binary, SecureChannel, Crypto}
use clianywhere_daemon.Daemon.Outgoing.{wrap_outgoing_binary}
use clianywhere_daemon.Rtc.Routes.{route-wrap_outgoing_binary}

abbrev moments : List RtcEvent
moments =
    sends_text (1 ∷ [])
    ∷ announces terminal
    ∷ terminal_opens
    ∷ flushes
    ∷ sends_text (2 ∷ [])
    ∷ terminal_closes
    ∷ sends_text (3 ∷ [])
    ∷ []

moments-AllQuiet : AllQuiet moments new_web_rtc_conn
unfolding rtc_step rtc_send_json announce open_terminal flush_pending close_terminal
    new_web_rtc_conn
moments-AllQuiet = ((λ up. refl), (tt, (refl, (tt, ((λ up. refl), (tt, ((λ up. cc), tt)))))))

texts-rtc_run_example :
    texts (rtc_run moments new_web_rtc_conn).1 ++ waiting (rtc_run moments new_web_rtc_conn).0
    ≡ given moments
texts-rtc_run_example = texts-rtc_run moments moments-AllQuiet

abbrev both : WebRtcConn
both = record new_web_rtc_conn {
  dc = true;
  file_dc = true;
  term_connected = true;
  file_connected = true;
}

abbrev frames : List RtcEvent
frames =
    sends_frame (7 ∷ 0 ∷ 0 ∷ 0 ∷ 0 ∷ 0 ∷ 0 ∷ 0 ∷ 3 ∷ 1 ∷ 9 ∷ [])
    ∷ sends_frame (1 ∷ 9 ∷ [])
    ∷ sends_frame (5 ∷ 9 ∷ [])
    ∷ file_turns false
    ∷ sends_frame (1 ∷ [])
    ∷ []

rtc_run-IsSplit_example :
    All IsSplit (rtc_run frames both).1 × ((b : Bytes) → IsPlaced b (rtc_run frames both).0)
rtc_run-IsSplit_example = rtc_run-IsSplit frames both refl

abbrev plain : Crypto Bytes
plain = record {
  new_gcm = λ key. some key;
  seal = λ g n p. replicate 16 0 ++ p;
  open_sealed = λ g n c. some (drop 16 c);
  encode64 = λ b. b;
  decode64 = λ b. some b;
  marshal = λ m. some m.payload;
  unmarshal = λ b. some (record empty_message { payload = b });
}

abbrev channel : SecureChannel Bytes
channel = record {
  active = true;
  send_key = [];
  recv_key = [];
  send_dir = [];
  recv_dir = [];
  gcm_send = some [];
  gcm_recv = some [];
  send_seq = 0;
  recv_seq = 0;
  has_recv = false;
}

abbrev secured : Daemon Bytes Bytes
secured = record (new_daemon "key" true) { secure = some channel }

route-wrap_outgoing_binary_example :
    frame_routes_to_file (wrap_outgoing_binary plain (1 ∷ 9 ∷ []) secured).1
    ≡ frame_routes_to_file (1 ∷ 9 ∷ [])
unfolding wrap_outgoing_binary wrap_binary secure_frame
route-wrap_outgoing_binary_example =
    route-wrap_outgoing_binary plain secured (1 ∷ 9 ∷ []) (λ e. cc) (λ e. cc)

-- ===== src/Proxy/Tests.antt =====
-- Witnesses for the tunnels: a TCP connection under 5 and a WebSocket one, opened, used and closed.
use clianywhere_daemon.Prelude.{
  drop, ◌++◌, ◌∙◌, length-replicate, ◌≤◌, arith, ◌∙◌, length-append, String, ◌<◌, replicate, length,
  nat_key, string_key, ℕ, true, false, none, some, List, [], ◌∷◌, ◌≡◌, refl,
}
use clianywhere_daemon.Protocol.{empty_message, Bytes}
use clianywhere_daemon.Proxy.Runs.{
  proxy_step, reads, proxy_run, connects_ws, sends, ProxyEvent, AllFresh, proxy_run-IsTracked,
  close_all_conns-proxy_run, connects,
}
use clianywhere_daemon.Proxy.Conns.{close_conn, empty_pool, register, remove_conn, ProxyConn}
use clianywhere_daemon.Proxy.Tracking.{IsTracked}
use clianywhere_daemon.Proxy.{
  proxy_frame, remove_tcp, read_tcp, handle_ws_connect, handle_data, handle_connect,
  close_all_conns, new_proxy_manager, http_response,
}
use clianywhere_daemon.Prelude.Assoc.{delete, insert, lookup}
use clianywhere_daemon.Secure.Laws.{Laws}
use clianywhere_daemon.Daemon.Outgoing.{
  frame_limit_for_channel, wrap_outgoing_binary, proxy_payload_limit_for_channel,
}
use clianywhere_daemon.Secure.{Crypto}
use clianywhere_daemon.Daemon.{new_daemon, Daemon}
use clianywhere_daemon.Proxy.Frames.{proxy_frame_fits, proxy_frame_overflows}
use clianywhere_daemon.Proxy.Bodies.{IsLeast, http_response-IsSequence, payloads, IsSequence}

abbrev events : List ProxyEvent
events =
    connects "5" 5 none
    ∷ sends 5 (1 ∷ []) false
    ∷ connects_ws "w" none
    ∷ reads "5" 0 false (9 ∷ []) true
    ∷ connects "5" 5 none
    ∷ reads "5" 0 false [] false
    ∷ connects "6" 6 none
    ∷ []

events-AllFresh : AllFresh events new_proxy_manager
unfolding proxy_step lookup insert delete new_proxy_manager empty_pool handle_connect handle_data
    handle_ws_connect read_tcp remove_tcp register remove_conn close_conn
events-AllFresh = (refl, (tt, (refl, (tt, (refl, (tt, (refl, tt)))))))

proxy_run-IsTracked_example :
    IsTracked (proxy_run events new_proxy_manager).tcp
    × IsTracked (proxy_run events new_proxy_manager).ws
proxy_run-IsTracked_example = proxy_run-IsTracked events events-AllFresh

close_all_conns-proxy_run_example :
    ((place : ℕ) (c : ProxyConn ℕ)
      → lookup place (close_all_conns (proxy_run events new_proxy_manager)).tcp.store ≡ some c
      → c.closed ≡ true)
    × ((place : ℕ) (c : ProxyConn String)
        → lookup place (close_all_conns (proxy_run events new_proxy_manager)).ws.store ≡ some c
        → c.closed ≡ true)
close_all_conns-proxy_run_example = close_all_conns-proxy_run events events-AllFresh

abbrev body : Bytes
body = replicate 20481 65

http_response-IsSequence_example :
    IsSequence "r"
      (length (http_response "r" 200 "OK" [] body))
      0
      (http_response "r" 200 "OK" [] body)
    × (payloads (http_response "r" 200 "OK" [] body) ≡ body)
    × IsLeast (length body) (length (http_response "r" 200 "OK" [] body))
http_response-IsSequence_example = http_response-IsSequence "r" 200 "OK" [] body

abbrev plain : Crypto Bytes
plain = record {
  new_gcm = λ key. some key;
  seal = λ g n p. replicate 16 0 ++ p;
  open_sealed = λ g n c. some (drop 16 c);
  encode64 = λ b. b;
  decode64 = λ b. some b;
  marshal = λ m. some m.payload;
  unmarshal = λ b. some (record empty_message { payload = b });
}

plain-Laws : Laws plain
plain-Laws = record {
  opens = λ g n p. refl;
  tagged = λ g n p. length-append (replicate 16 0) p ∙ omega arith;
  decodes = λ b. refl;
}

abbrev on_relay : Daemon Bytes Bytes
on_relay = new_daemon "key" true

abbrev on_p2p : Daemon Bytes Bytes
on_p2p = record on_relay { channel_mode = "p2p" }

proxy_frame_fits_example :
    length (wrap_outgoing_binary plain (proxy_frame 5 (1 ∷ 2 ∷ [])) on_p2p).1
    ≤ frame_limit_for_channel on_p2p
unfolding proxy_payload_limit_for_channel
proxy_frame_fits_example =
    proxy_frame_fits plain on_p2p on_p2p 5 (1 ∷ 2 ∷ []) plain-Laws (λ y. y) (omega arith)

-- A read of any length.
filled : (n : ℕ) → (b : Bytes) × (length b ≡ n)
filled n = (replicate n 0, length-replicate n 0)

proxy_frame_overflows_example :
    frame_limit_for_channel on_p2p < length (proxy_frame 5 (filled 524257).0)
unfolding proxy_payload_limit_for_channel new_daemon
proxy_frame_overflows_example =
    proxy_frame_overflows plain on_relay on_p2p 5 (filled 524257).0 refl refl (filled 524257).1
